-- ===== src/Store/Interrupts/Latest.antt =====
-- The latest interrupt of an operation, after a new one is recorded.
use Prim.Native.Char.{code}
use text.Mathlib.TextLemmas.{nil-append as nil-append_text, cons-append as cons-append_text}
use my_wio.Base.{
  ℕ, String, ◌≡◌, refl, ap, ◌∙◌, true, some, List, [], ◌∷◌, ◌++◌, ltb, keep, all, ◌<>◌, arith,
}
use my_wio.Text.{Text, codes, has_prefix, strip_prefix}
use my_wio.Store.Table.{order_by, insert_by, all-order_by}
use my_wio.Store.Operations.{Operation, is_active}
use my_wio.Store.Queue.{new_operation}
use my_wio.Store.Interrupts.{
  interrupt_prefix, is_interrupt_of, is_newer_interrupt, latest_interrupt, interrupt_row,
}

codes-append : (a b : String) → codes (a <> b) ≡ codes a ++ codes b
codes-append String.[] b = ap codes (nil-append_text b)
codes-append (String.◌∷◌ c s) b =
    ap codes (cons-append_text c s b) ∙ ap (λ t. code c ∷ t) (codes-append s b)

has_prefix-append : (p s : Text) → has_prefix (p ++ s) p ≡ true
unfolding has_prefix strip_prefix
has_prefix-append [] s = refl
has_prefix-append (c ∷ p) s = ground (arith, has_prefix-append p s)

-- The row of a new interrupt is an interrupt of its target.
pub interrupt_row-is_interrupt_of :
    (encode : String → String → String) (fresh : String) (now : ℕ) (target : Operation)
    (previous_id : String)
    → is_interrupt_of target.id (interrupt_row encode fresh now target previous_id) ≡ true
unfolding is_interrupt_of interrupt_row new_operation
interrupt_row-is_interrupt_of encode fresh now target previous_id =
    rw (codes-append (interrupt_prefix target.id) previous_id)
      (has_prefix-append (codes (interrupt_prefix target.id)) (codes previous_id))

pub interrupt_row-active :
    (encode : String → String → String) (fresh : String) (now : ℕ) (target : Operation)
    (previous_id : String)
    → (is_active (interrupt_row encode fresh now target previous_id).status ≡ true)
      × ((interrupt_row encode fresh now target previous_id).created_at ≡ now)
unfolding interrupt_row new_operation is_active
interrupt_row-active encode fresh now target previous_id = (refl, refl)

insert_newest :
    (o : Operation) (rows : List Operation)
    → all (λ p. ltb p.created_at o.created_at) rows ≡ true
    → insert_by is_newer_interrupt o rows ≡ o ∷ rows
unfolding insert_by is_newer_interrupt
insert_newest o [] h = refl
insert_newest o (p ∷ rows) h = ground arith

newest_first :
    (id : String) (o : Operation) (ops : List Operation)
    → is_interrupt_of id o ≡ true
    → all (λ p. ltb p.created_at o.created_at) (keep (is_interrupt_of id) ops) ≡ true
    → order_by is_newer_interrupt (keep (is_interrupt_of id) (o ∷ ops))
      ≡ o ∷ order_by is_newer_interrupt (keep (is_interrupt_of id) ops)
unfolding order_by
newest_first id o ops i older =
    rw
      (
        i,
        insert_newest o (order_by is_newer_interrupt (keep (is_interrupt_of id) ops))
            (all-order_by _ is_newer_interrupt (keep (is_interrupt_of id) ops) ∙ older),
      )
      refl

pub latest_new :
    (id : String) (o : Operation) (ops : List Operation)
    → is_interrupt_of id o ≡ true
    → all (λ p. ltb p.created_at o.created_at) (keep (is_interrupt_of id) ops) ≡ true
    → latest_interrupt id (o ∷ ops) ≡ some o
unfolding latest_interrupt
latest_new id o ops i older = rw (latest_interrupt, newest_first id o ops i older) refl
