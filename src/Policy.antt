-- ===== src/Policy.antt =====
-- src/bk/policy.py: the policy that a ledger is bound to.
pub mod Binding
use gpubk.Prelude.{ℕ, Bool, true, false, not, ◌&&◌, ◌||◌, Option, none, some, ◌==◌, if◌then◌else◌}
use gpubk.Models.{LedgerPolicy, PolicyEntry, absent, malformed, bound, Ledger, Config, same_number}
use gpubk.Granularity.{slot_seconds}
use gpubk.Errors.{Result, ok, err, policy_malformed, policy_mismatch}

abbrev pub ledger_policy_version : ℕ
ledger_policy_version = 1

-- The storage GID is a key only where the configuration has one.
unfoldable pub policy_for_config : Config → LedgerPolicy
policy_for_config config = record {
  version = some ledger_policy_version;
  gpu_count = some config.gpu_count;
  max_shared_reservations_per_gpu = some config.max_shared_users;
  granularity_seconds = some (slot_seconds config.slot_minutes);
  require_shared_memory = some config.require_shared_memory;
  shared_memory_reserve_mb = some config.shared_memory_reserve_mb;
  file_mode = some config.file_mode;
  dir_mode = some config.dir_mode;
  storage_gid = config.storage_gid;
}

abbrev pub same_bool : Option Bool → Option Bool → Bool
same_bool none none = true
same_bool (some true) (some true) = true
same_bool (some false) (some false) = true
same_bool _ _ = false

-- `STORAGE_GID_POLICY_KEY in current and current[…] != config.storage_gid`
abbrev pub gid_differs : Option ℕ → Option ℕ → Bool
gid_differs none expected = false
gid_differs (some gid) expected = not (same_number (some gid) expected)

-- No key of the expected policy differs, and the storage GID does not differ where it is bound.
unfoldable pub policy_matches : LedgerPolicy → Config → Bool
unfolding policy_for_config
policy_matches current config =
    let expected = policy_for_config config in
    same_number current.version expected.version
    && (same_number current.gpu_count expected.gpu_count
        && (same_number current.max_shared_reservations_per_gpu
              expected.max_shared_reservations_per_gpu
            && (same_number current.granularity_seconds expected.granularity_seconds
                && (same_bool current.require_shared_memory expected.require_shared_memory
                    && (same_number current.shared_memory_reserve_mb
                          expected.shared_memory_reserve_mb
                        && (same_number current.file_mode expected.file_mode
                            && (same_number current.dir_mode expected.dir_mode
                                && not (gid_differs current.storage_gid config.storage_gid))))))))

-- The entry under the ledger's key.
validate_entry : PolicyEntry → Config → Result (Unit {0})
unfolding policy_matches
validate_entry absent config = ok tt
validate_entry malformed config = err policy_malformed
validate_entry (bound current) config =
    if policy_matches current config then ok tt else err policy_mismatch

unfoldable pub validate_ledger_policy : Ledger → Config → Result (Unit {0})
unfolding validate_entry
validate_ledger_policy ledger config = validate_entry ledger.policy config

-- `config.storage_gid is not None and STORAGE_GID_POLICY_KEY not in current`
bind_gid : LedgerPolicy → Option ℕ → Ledger → Ledger × Bool
bind_gid current none ledger = (ledger, false)
bind_gid current (some gid) ledger = elim current.storage_gid [
  | some _ ↦ (ledger, false)
  | none ↦ (record ledger { policy = bound (record current { storage_gid = some gid }) }, true)
]

bind_entry : PolicyEntry → Ledger → Config → Result (Ledger × Bool)
unfolding bind_gid validate_entry policy_for_config
bind_entry absent ledger config =
    ok (record ledger { policy = bound (policy_for_config config) }, true)
bind_entry malformed ledger config = err policy_malformed
bind_entry (bound current) ledger config =
    if policy_matches current config
    then ok (bind_gid current config.storage_gid ledger)
    else err policy_mismatch

-- The ledger with its policy, and whether it changed.
unfoldable pub bind_ledger_policy : Ledger → Config → Result (Ledger × Bool)
unfolding bind_entry
bind_ledger_policy ledger config = bind_entry ledger.policy ledger config
