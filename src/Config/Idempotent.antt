-- ===== src/Config/Idempotent.antt =====
-- Validate: what has passed it passes it again and is not changed any more.
use all2api.Prelude.{
  is_empty-of_ne, ℕ, ◌≡◌, refl, ap, ◌∙◌, false, ◌||◌, [], ◌∷◌, if◌then◌else◌, is_empty, arith, ◌<◌,
  ℤ, pos, leb_ℤ, ltb_ℤ, ok,
}
use all2api.Text.{Bytes, bytes}
use all2api.Config.{Config}
use all2api.Config.Validate.{
  or_text, or_positive, normalize_legacy_config, fill_defaults, validate_parts, validate,
}
use all2api.Config.Usable.{IsUsable, validate_credential_pools-All, validate_platforms-All}
use all2api.Config.Accepted.{prepared, validate_lem, validate_parts_lem, validate-IsUsable}
use all2api.Config.Again.{
  AllLabelled, label_keys-AllLabelled, label_keys-same, last_keys, last_keys-again,
  last_keys-AllLabelled, fill_all, fill_all-again,
}
use all2api.Config.Fixpoint.{
  validate_credential_pools-same, validate_credential_pools-keys, validate_platforms-same,
  validate_platforms-workspaces,
}

or_positive-again :
    (n : ℤ) (m : ℕ) → 0 < m → or_positive (or_positive n (pos m)) (pos m) ≡ or_positive n (pos m)
or_positive-again n m h = ground arith

or_text-again : (s d : Bytes) → or_text (or_text s d) d ≡ or_text s d
or_text-again [] [] = refl
or_text-again [] (b ∷ d) = refl
or_text-again (b ∷ s) d = refl

-- The threshold of Validate, with its default.
abbrev threshold : ℤ → ℤ
threshold n = if ltb_ℤ n (pos 0) then pos 1 else n

threshold-again : (n : ℤ) → threshold (threshold n) ≡ threshold n
threshold-again n = ground arith

fill_defaults-again : (c : Config) → fill_defaults (fill_defaults c) ≡ fill_defaults c
unfolding fill_defaults
fill_defaults-again c = rw (
  threshold-again c.scheduler.switch_threshold,
  or_positive-again c.scheduler.rate_limit_cooldown_seconds 60 (omega arith),
  or_positive-again c.scheduler.error_cooldown_seconds 30 (omega arith),
  or_positive-again c.scheduler.max_error_count 3 (omega arith),
  or_positive-again c.scheduler.max_retries 3 (omega arith),
  or_positive-again c.management.log_read_limit 500 (omega arith),
  or_text-again c.management.log_file (bytes "logs/gateway.jsonl"),
  or_text-again c.logging.level (bytes "info"),
)

-- All that Validate leaves as it is.
record IsNormal (d : Config) : Type 0 where
  usable : IsUsable d
  host : or_text d.server.host (bytes "0.0.0.0") ≡ d.server.host
  labelled : AllLabelled d.keys
  keys : last_keys d.keys d.credential_pools ≡ d.keys
  workspaces : fill_all d.workspaces d.platforms ≡ d.workspaces
  defaults : fill_defaults d ≡ d

module _ (d : Config) (n : IsNormal d) where
  prepared-same : prepared d ≡ d
  unfolding normalize_legacy_config
  prepared-same = rw (
    n.host,
    label_keys-same 0 d.keys n.labelled,
    is_empty-of_ne d.credential_pools n.usable.has_pools,
    is_empty-of_ne d.platforms n.usable.has_platforms,
  )

  validate_parts-same : validate_parts d ≡ ok d
  unfolding validate_parts
  validate_parts-same =
      rw (validate_credential_pools-same d.keys d.credential_pools n.usable.pools, validate_parts)
        (rw
          (validate_platforms-same d.credential_pools n.usable.pools d.workspaces d.platforms
            n.usable.platforms)
          (rw (n.keys, n.workspaces, n.defaults)))

  validate_behind :
      leb_ℤ d.server.port (pos 0) || ltb_ℤ (pos 65535) d.server.port ≡ false
      → is_empty (prepared d).platforms ≡ false
      → is_empty (prepared d).credential_pools ≡ false
      → validate d ≡ validate_parts (prepared d)
  unfolding validate
  validate_behind port platforms pools = rw port (rw platforms (rw pools))

  IsNormal-validate : validate d ≡ ok d
  IsNormal-validate =
      let low = n.usable.port_ge in
      let high = n.usable.port_le in
      validate_behind (ground arith)
        (rw prepared-same (is_empty-of_ne d.platforms n.usable.has_platforms))
        (rw prepared-same (is_empty-of_ne d.credential_pools n.usable.has_pools))
      ∙ ap validate_parts prepared-same
      ∙ validate_parts-same

prepared-labelled : (c : Config) → AllLabelled (prepared c).keys
unfolding normalize_legacy_config
prepared-labelled c = label_keys-AllLabelled 0 c.keys

prepared-host :
    (c : Config) → or_text (prepared c).server.host (bytes "0.0.0.0") ≡ (prepared c).server.host
unfolding normalize_legacy_config
prepared-host c = or_text-again c.server.host (bytes "0.0.0.0")

validate-IsNormal : (c c' : Config) → validate c ≡ ok c' → IsNormal c'
unfolding fill_defaults
validate-IsNormal c c' h =
    let (_, _, _, _, parts) = validate_lem c c' h in
    let (pools, platforms, made_pools, made_platforms, same) =
      validate_parts_lem (prepared c) c' parts in
    let b = prepared c in
    let (pools_usable, _) =
      validate_credential_pools-All b.keys b.credential_pools pools made_pools in
    let (platforms_usable, _) =
      validate_platforms-All pools.0 b.workspaces b.platforms platforms made_platforms in
    let keys = validate_credential_pools-keys b.keys b.credential_pools pools made_pools in
    let filled =
      validate_platforms-workspaces pools.0 b.workspaces b.platforms platforms made_platforms in
    let last = record b {
      keys = pools.1;
      credential_pools = pools.0;
      platforms = platforms.0;
      workspaces = platforms.1;
    } in
    rw same (record {
      usable = rw (← same) (validate-IsUsable c c' h);
      host = prepared-host c;
      labelled = rw keys (last_keys-AllLabelled b.keys pools.0 (prepared-labelled c) pools_usable);
      keys = rw keys (last_keys-again b.keys pools.0);
      workspaces = rw filled (fill_all-again pools.0 b.workspaces platforms.0 platforms_usable);
      defaults = fill_defaults-again last;
    })

-- What Validate returns passes it again and is not changed any more.
pub validate-validate : (c c' : Config) → validate c ≡ ok c' → validate c' ≡ ok c'
validate-validate c c' h = IsNormal-validate c' (validate-IsNormal c c' h)
