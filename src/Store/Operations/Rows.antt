-- ===== src/Store/Operations/Rows.antt =====
-- What a statement on the queue of operations may do to a row: the order of the stages.
use mathlib.Core.Option
use my_wio.Base.{
  ℕ, ◌≤◌, String, ◌≡◌, refl, ◌∙◌, Bool, true, false, Option, none, some, List, [], ◌∷◌, str_eq,
  if◌then◌else◌, arith,
}
use my_wio.Store.Table.{update_where}
use my_wio.Store.Operations.{Operation, is_active, operation}

-- A statement that keeps the ids acts on the row with an id as on that row alone.
pub operation-update_where :
    (id : String) (p : Operation → Bool) (f : Operation → Operation)
    → ((o : Operation) → (f o).id ≡ o.id)
    → (ops : List Operation)
    → operation id (update_where p f ops)
      ≡ Option.map (λ o. if p o then f o else o) (operation id ops)
unfolding operation update_where
operation-update_where id p f same [] = refl
operation-update_where id p f same (o ∷ ops) =
    ground (arith, same o, operation-update_where id p f same ops)

-- How far the statements of Steps have moved a row: queued, delivered, running, at rest. At rest are the
-- rows that none of these statements writes: the finished ones, and those of status `waiting` or
-- `preparing`, which the deletion and the creation of a project queue by statements of their own.
unfoldable pub stage : String → ℕ
stage status =
    if str_eq status "queued"
    then 0
    else if str_eq status "delivered"
    then 1
    else if str_eq status "running"
    then 2
    else 3

-- What a step may do to a row.
pub record Follows (o : Operation) (o' : Operation) : Type 0 where
  pub finished_stays : is_active o.status ≡ false → o' ≡ o
  pub forward : stage o.status ≤ stage o'.status
  pub same_id : o'.id ≡ o.id
  pub same_key : o'.idempotency_key ≡ o.idempotency_key
  pub same_payload : o'.payload ≡ o.payload
  pub same_kind : o'.kind ≡ o.kind

abbrev pub FollowsRow : Option Operation → Option Operation → Type 0
FollowsRow none _ = Unit
FollowsRow (some o) none = ⊥
FollowsRow (some o) (some o') = Follows o o'

-- A guarded update: it writes active rows alone, keeps what identifies a row and goes forward.
pub record IsGuarded (p : Operation → Bool) (f : Operation → Operation) : Type 0 where
  pub only_active : (o : Operation) → p o ≡ true → is_active o.status ≡ true
  pub up : (o : Operation) → p o ≡ true → stage o.status ≤ stage (f o).status
  pub keeps_id : (o : Operation) → (f o).id ≡ o.id
  pub keeps_key : (o : Operation) → (f o).idempotency_key ≡ o.idempotency_key
  pub keeps_payload : (o : Operation) → (f o).payload ≡ o.payload
  pub keeps_kind : (o : Operation) → (f o).kind ≡ o.kind

module _ (p : Operation → Bool) (f : Operation → Operation) (g : IsGuarded p f) where
  pub IsGuarded-Follows : (o : Operation) → Follows o (if p o then f o else o)
  IsGuarded-Follows o = record {
    finished_stays = ground (arith, g.only_active o);
    forward = ground (arith, g.up o);
    same_id = ground (arith, g.keeps_id o);
    same_key = ground (arith, g.keeps_key o);
    same_payload = ground (arith, g.keeps_payload o);
    same_kind = ground (arith, g.keeps_kind o);
  }

  pub IsGuarded-FollowsRow :
      (ops : List Operation) (id : String)
      → FollowsRow (operation id ops) (operation id (update_where p f ops))
  IsGuarded-FollowsRow ops id =
      rw (operation-update_where id p f g.keeps_id ops) (mapped (operation id ops))
    where
      mapped :
          (row : Option Operation) → FollowsRow row (Option.map (λ o. if p o then f o else o) row)
      mapped none = tt
      mapped (some o) = IsGuarded-Follows o

pub stage-le : (status : String) → stage status ≤ 3
unfolding stage
stage-le status = ground arith

pub stage_finished : (status : String) → is_active status ≡ false → stage status ≡ 3
unfolding stage is_active
stage_finished status h = ground arith

Follows-refl : (o : Operation) → Follows o o
Follows-refl o = record {
  finished_stays = λ h. refl;
  forward = omega arith;
  same_id = refl;
  same_key = refl;
  same_payload = refl;
  same_kind = refl;
}

pub FollowsRow-refl : (row : Option Operation) → FollowsRow row row
FollowsRow-refl none = tt
FollowsRow-refl (some o) = Follows-refl o

Follows-trans : (a b c : Operation) → Follows a b → Follows b c → Follows a c
Follows-trans a b c f g = record {
  finished_stays = λ h. g.finished_stays (rw (f.finished_stays h) h) ∙ f.finished_stays h;
  forward = omega arith;
  same_id = g.same_id ∙ f.same_id;
  same_key = g.same_key ∙ f.same_key;
  same_payload = g.same_payload ∙ f.same_payload;
  same_kind = g.same_kind ∙ f.same_kind;
}

pub FollowsRow-trans : (a b c : Option Operation) → FollowsRow a b → FollowsRow b c → FollowsRow a c
FollowsRow-trans none b c f g = tt
FollowsRow-trans (some a) none c f g = elim f [ ]
FollowsRow-trans (some a) (some b) none f g = elim g [ ]
FollowsRow-trans (some a) (some b) (some c) f g = Follows-trans a b c f g
