-- ===== src/Policy/Binding.antt =====
-- After `bind_ledger_policy` the ledger carries a policy that the same configuration accepts.
use gpubk.Prelude.{
  ℕ, Bool, true, false, ◌≡◌, refl, sym, ap, subst, Option, none, some, arith, ==_refl, inl, inr,
  Bool-cases, Option-cases,
}
use gpubk.Models.{LedgerPolicy, PolicyEntry, absent, malformed, bound, Ledger, Config, same_number}
use gpubk.Errors.{ok, ok-injective}
use gpubk.Policy.{
  policy_for_config, same_bool, gid_differs, policy_matches, validate_ledger_policy, bind_gid,
  bind_entry, bind_ledger_policy,
}

same_number_refl : (a : Option ℕ) → same_number a a ≡ true
same_number_refl none = refl
same_number_refl (some a) = ==_refl a

same_bool_refl : (a : Bool) → same_bool (some a) (some a) ≡ true
same_bool_refl true = refl
same_bool_refl false = refl

gid_agrees : (a : Option ℕ) → gid_differs a a ≡ false
gid_agrees none = refl
gid_agrees (some a) = ground arith

policy_for_config-matches :
    (config : Config) → policy_matches (policy_for_config config) config ≡ true
unfolding policy_matches
policy_for_config-matches config =
    ground (arith, same_bool_refl config.require_shared_memory, gid_agrees config.storage_gid)

with_gid-matches :
    (p : LedgerPolicy) (config : Config) (gid : ℕ)
    → config.storage_gid ≡ some gid
    → policy_matches p config ≡ true
    → policy_matches (record p { storage_gid = some gid }) config ≡ true
unfolding policy_matches
with_gid-matches p config gid e h = ground arith

-- What `bind_gid` gives: a policy that matches, and that binding leaves alone.
abbrev IsSettled : Ledger → Ledger → Config → Type 0
IsSettled ledger settled config =
    (p : LedgerPolicy) × (settled ≡ record ledger { policy = bound p })
    × (policy_matches p config ≡ true)
    × ((l : Ledger) → bind_gid p config.storage_gid l ≡ (l, false))

settle :
    (current : LedgerPolicy) (gid : Option ℕ) (ledger : Ledger) (config : Config)
    → config.storage_gid ≡ gid
    → ledger.policy ≡ bound current
    → policy_matches current config ≡ true
    → IsSettled ledger (bind_gid current gid ledger).0 config
unfolding bind_gid
settle current none ledger config e b h = (current, ground arith, h, λ l. rw e)
settle current (some gid) ledger config e b h = elim (Option-cases current.storage_gid) [
  | inl missing ↦ rw missing (
    record current { storage_gid = some gid },
    refl,
    with_gid-matches current config gid e h,
    λ l. rw e,
  )
  | inr (g, there) ↦ rw there (current, ground arith, h, λ l. rw (e, there))
]

bind_entry-IsSettled :
    (entry : PolicyEntry) (ledger ledger' : Ledger) (config : Config) (changed : Bool)
    → ledger.policy ≡ entry
    → bind_entry entry ledger config ≡ ok (ledger', changed)
    → IsSettled ledger ledger' config
unfolding bind_entry
bind_entry-IsSettled absent ledger ledger' config changed e h = (
  policy_for_config config,
  ap (λ r. r.0) (sym (ok-injective h)),
  policy_for_config-matches config,
  gid_kept config.storage_gid,
)
  where
    gid_kept :
        (gid : Option ℕ) (l : Ledger)
        → bind_gid (record (policy_for_config config) { storage_gid = gid }) gid l ≡ (l, false)
    gid_kept none l = refl
    gid_kept (some g) l = refl
bind_entry-IsSettled malformed ledger ledger' config changed e h = cc
bind_entry-IsSettled (bound current) ledger ledger' config changed e h =
    elim (Bool-cases (policy_matches current config)) [
      | inl same ↦
          subst (λ l. IsSettled ledger l config) (ap (λ r. r.0) (ok-injective (rw same at h)))
            (settle current config.storage_gid ledger config refl e same)
      | inr differs ↦ cc (h, differs)
    ]

IsSettled-binds :
    (ledger settled : Ledger) (config : Config)
    → IsSettled ledger settled config
    → (validate_ledger_policy settled config ≡ ok tt)
      × (settled.reservations ≡ ledger.reservations)
      × (bind_ledger_policy settled config ≡ ok (settled, false))
unfolding bind_ledger_policy validate_ledger_policy
IsSettled-binds ledger settled config (p, e, same, kept) = rw e (rw same, refl, rw (same, kept))

-- A ledger that was bound passes the validation of the same configuration, has the reservations
-- that it had, and is left unchanged by a second binding.
pub bind_ledger_policy_lem :
    (ledger ledger' : Ledger) (config : Config) (changed : Bool)
    → bind_ledger_policy ledger config ≡ ok (ledger', changed)
    → (validate_ledger_policy ledger' config ≡ ok tt)
      × (ledger'.reservations ≡ ledger.reservations)
      × (bind_ledger_policy ledger' config ≡ ok (ledger', false))
bind_ledger_policy_lem ledger ledger' config changed h = IsSettled-binds ledger ledger' config (
    unfold bind_ledger_policy in
    bind_entry-IsSettled ledger.policy ledger ledger' config changed refl h)
