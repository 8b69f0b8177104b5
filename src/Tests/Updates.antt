-- ===== src/Tests/Updates.antt =====
-- Runs of the Agent's update in internal/agent/selfupdate.go.
use my_wio.Base.{◌≤◌, true, false, none, some, [], ◌∷◌, ◌≡◌, refl, map, any, if◌then◌else◌, pos}
use my_wio.Text.{
  unsigned, trim_left, strip_prefix, is_space, has_prefix, digits_from, atoi, add_to_first,
  trim_space, trim_prefix, take_until, split, Text, codes, text_eq, to_lower,
}
use my_wio.Text.Laws.{text_eq_refl}
use my_wio.Paths.{clean, join, escapes, join_elements, elements}
use my_wio.BuildInfo.Version.{
  parse_parts, not_below, is_newer, parse_version, supports_self_update, update_available,
}
use my_wio.SelfUpdate.{
  write_agent_update_manifest, remove_manifest, attempt, activate_found, read_agent_update_manifest,
  matches_current_executable, equal_fold, matches_file_hash, Manifest, stored, absent, Host,
  Platform, pending, attempting, healthy, set_state, continues, replaced, valid_manifest,
  activate_current_update, confirm_current_update,
}
use my_wio.SelfUpdate.Rollback.{
  is_replaced, replacements, replaced_at_most_once, IsChecked, activate-IsChecked,
}
use my_wio.SelfUpdate.Success.{tried, update_succeeds}
use my_wio.SelfUpdate.Staging.{
  is_hex, download_agent_update, valid_checksum, valid_size, prepare, finish_staging, keeps_flag,
  UpdateCommand, Response, body, Agent, stage_agent_update, blocks_update,
}
use my_wio.SelfUpdate.Staging.Ready.{IsStaged, stage_agent_update-IsStaged}
use my_wio.SelfUpdate.Staging.Refused.{IsKeptOrLost, refused_keeps_manifest}

abbrev base : Text
base = codes "/usr/bin/wio-agent"

-- Every file system call succeeds; the base binary is version 0.3.0.
abbrev machine : Platform
machine = record {
  root = codes "/state/updates";
  version_of = λ path. codes "0.3.0";
  same_path = text_eq;
  can_exec = λ path. true;
  can_write = λ m. true;
  can_place = λ path. true;
  loses_file = λ path. false;
  can_remove = true;
}

abbrev new_manifest : Manifest
new_manifest = record {
  version = codes "0.4.0";
  binary = codes "ab/wio-agent";
  sha256 = codes "ab";
  state = pending;
}

abbrev new_binary : Text
new_binary = codes "/state/updates/ab/wio-agent"

abbrev updated : Host
updated = record {
  current = stored new_manifest;
  file_hash = λ path. if text_eq path new_binary then some (codes "AB") else none;
  executable = base;
}

starts :
    (activate_current_update machine updated ≡ (
      record updated {
        current = stored (record new_manifest { state = attempting });
        executable = new_binary;
      },
      replaced,
    ))
    × (replacements machine (base ∷ base ∷ base ∷ []) updated ≡ 1)
unfolding activate_current_update read_agent_update_manifest clean elements split escapes
    matches_file_hash join equal_fold to_lower matches_current_executable update_available
    supports_self_update parse_version take_until trim_prefix trim_space mathlib.Core.Option.bind
    is_newer not_below parse_parts join_elements activate_found attempt remove_manifest set_state
    valid_manifest write_agent_update_manifest add_to_first atoi digits_from has_prefix is_space
    strip_prefix trim_left unsigned replacements is_replaced
starts = (refl, refl)

replaced_at_most_once_example : replacements machine (base ∷ base ∷ base ∷ []) updated ≤ 1
replaced_at_most_once_example = replaced_at_most_once machine (base ∷ base ∷ base ∷ []) updated

activate-IsChecked_example :
    (m : Manifest) × (updated.current ≡ stored m)
    × (valid_manifest machine m ≡ true)
    × IsChecked machine updated m
    × ((activate_current_update machine updated).0 ≡ record updated {
      current = stored (set_state attempting m);
      executable = join machine.root (clean m.binary);
    })
unfolding activate_current_update read_agent_update_manifest clean elements split escapes
    matches_file_hash join equal_fold to_lower matches_current_executable update_available
    supports_self_update parse_version take_until trim_prefix trim_space mathlib.Core.Option.bind
    is_newer not_below parse_parts join_elements activate_found attempt remove_manifest set_state
    valid_manifest write_agent_update_manifest add_to_first atoi digits_from has_prefix is_space
    strip_prefix trim_left unsigned
activate-IsChecked_example = activate-IsChecked machine updated refl

update_succeeds_example :
    (activate_current_update machine updated ≡ (tried machine new_manifest updated, replaced))
    × (activate_current_update machine (tried machine new_manifest updated)
        ≡ (tried machine new_manifest updated, continues))
    × (confirm_current_update machine (tried machine new_manifest updated) ≡ (
      record (tried machine new_manifest updated) {
        current = stored (set_state healthy (set_state attempting new_manifest));
      },
      true,
    ))
unfolding valid_manifest clean elements split escapes matches_file_hash join equal_fold to_lower
    matches_current_executable update_available supports_self_update parse_version take_until
    trim_prefix trim_space atoi
update_succeeds_example =
    update_succeeds machine updated new_manifest refl refl (refl, refl, refl, refl) (λ m. refl)
      (λ path. refl) text_eq_refl

abbrev checksum : Text
checksum = codes "00112233445566778899aabbccddeeff00112233445566778899aabbccddeeff"

abbrev command : UpdateCommand
command = record {
  version = codes "0.4.0";
  packages = λ architecture. some (record { url = codes "/p"; sha256 = checksum; size = pos 10 });
}

abbrev agent : Agent
agent = record {
  seen = record { kind = "git.commit"; done = false } ∷ [];
  update_pending = false;
  host = record updated { current = absent };
}

abbrev amd64 : Text
amd64 = codes "amd64"

abbrev server : Text → Response
server source = body 10 checksum

stage_agent_update-IsStaged_example :
    let a' = (stage_agent_update machine amd64 some server command agent).0 in
    (agent.update_pending ≡ false)
    × (any blocks_update agent.seen ≡ false)
    × (a'.update_pending ≡ true)
    × IsStaged machine amd64 some server command
        (join (join machine.root (map to_lower checksum)) (codes "wio-agent"))
        agent.host
        a'.host
unfolding stage_agent_update blocks_update finish_staging prepare trim_space update_available
    supports_self_update parse_version split take_until trim_prefix atoi valid_size valid_checksum
    matches_file_hash join clean elements to_lower download_agent_update equal_fold
stage_agent_update-IsStaged_example =
    stage_agent_update-IsStaged machine amd64 some server command agent refl

-- No manifest can be written, and each replacement fails behind the removal of the old file.
abbrev full_disk : Platform
full_disk = record machine { can_write = λ m. false; loses_file = λ path. true }

refused_keeps_manifest_example :
    let waiting : Agent = record agent {
      host = record agent.host { current = stored new_manifest };
    } in
    let (a', outcome) = stage_agent_update full_disk amd64 some server command waiting in
    IsKeptOrLost waiting.host.current (a'.host, outcome)
    × (a'.update_pending ≡ waiting.update_pending)
unfolding keeps_flag stage_agent_update blocks_update finish_staging prepare trim_space
    update_available supports_self_update parse_version split take_until trim_prefix atoi valid_size
    valid_checksum matches_file_hash join clean elements to_lower mathlib.Core.Option.bind is_newer
    not_below parse_parts join_elements download_agent_update is_hex equal_fold
    matches_current_executable write_agent_update_manifest add_to_first digits_from is_space
    strip_prefix trim_left unsigned
refused_keeps_manifest_example =
    refused_keeps_manifest full_disk amd64 some server command
      (record agent { host = record agent.host { current = stored new_manifest } }) refl
