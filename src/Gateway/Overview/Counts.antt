-- ===== src/Gateway/Overview/Counts.antt =====
-- Overview: what the dashboard counts is what the pools hold.
use all2api.Prelude.{
  ℕ, ◌+◌, ◌≡◌, refl, ap, List, [], ◌∷◌, map, arith, if◌then◌else◌, length, length-map,
}
use mathlib.Core.List.{Perm}
use mathlib.Core.List.Perm
use all2api.Text.{Bytes, bytes, text_eq}
use all2api.Table.{names}
use all2api.Keypool.{
  KeyState, Pool, view, active, exhausted, rate_limited, error, is_active, status_text,
}
use all2api.Config.{PlatformConfig}
use all2api.Proxy.Exchange.{Store}
use all2api.Gateway.{Manager, sort_entries}
use all2api.Gateway.Sorted.{
  AreSorted, names-AreSorted, total, total-sort_entries, length-sort_entries, sort_entries-IsSorted,
  sort_entries-perm,
}
use all2api.Gateway.Overview.{
  KeyCounts, Overview, CredentialPoolRuntime, PlatformOverview, count_key, count_keys, count_pools,
  no_keys, pools_from, pool_runtime, platform_overview, snapshot_pools, overview,
}

-- The keys of a pool that are active.
abbrev pub count_active : List KeyState → ℕ
count_active [] = 0
count_active (k ∷ ks) = (if is_active k.status then 1 else 0) + count_active ks

view-is_active : (k : KeyState) → text_eq (view k).status (bytes "active") ≡ is_active k.status
unfolding view text_eq
view-is_active k =
    elim k.status as (λ st. text_eq (status_text st) (bytes "active") ≡ is_active st) [
      | active ↦ refl
      | exhausted ↦ refl
      | rate_limited ↦ refl
      | error ↦ refl
    ]

-- The counters after a number of keys, some of them active.
abbrev Counts : KeyCounts → ℕ → ℕ → KeyCounts → Type 0
Counts c keys actives d =
    (d.key_count ≡ c.key_count + keys)
    × (d.active_key_count ≡ c.active_key_count + actives)
    × (d.active_key_count + d.problem_key_count ≡ c.active_key_count + c.problem_key_count + keys)

count_key-Counts :
    (c : KeyCounts) (k : KeyState)
    → Counts c 1 (if is_active k.status then 1 else 0) (count_key c (view k))
unfolding count_key
count_key-Counts c k = ground (arith, view-is_active k)

count_keys-Counts :
    (c : KeyCounts) (ks : List KeyState)
    → Counts c (length ks) (count_active ks) (count_keys c (map view ks))
unfolding count_keys
count_keys-Counts c [] = omega arith
count_keys-Counts c (k ∷ ks) =
    let head = count_key-Counts c k in
    let later = count_keys-Counts (count_key c (view k)) ks in
    omega (arith, head.0, head.1, head.2, later.0, later.1, later.2)

abbrev all_keys : List (Bytes × Pool) → ℕ
all_keys = total (λ (p : Pool). length p.keys)

abbrev active_keys : List (Bytes × Pool) → ℕ
active_keys = total (λ (p : Pool). count_active p.keys)

count_pools-Counts :
    (c : KeyCounts) (ps : List (Bytes × Pool))
    → Counts c (all_keys ps) (active_keys ps) (count_pools c (map pool_runtime ps))
unfolding count_pools pool_runtime
count_pools-Counts c [] = omega arith
count_pools-Counts c ((name, p) ∷ ps) =
    let head = count_keys-Counts c p.keys in
    let later = count_pools-Counts (count_keys c (map view p.keys)) ps in
    omega (arith, head.0, head.1, head.2, later.0, later.1, later.2)

-- The name of an entry of the overview.
abbrev platform_name : PlatformOverview → Bytes
platform_name p = p.name

abbrev pool_name : CredentialPoolRuntime → Bytes
pool_name p = p.name

names-platforms :
    (es : List (Bytes × PlatformConfig)) → map platform_name (map platform_overview es) ≡ names es
unfolding platform_overview
names-platforms [] = refl
names-platforms ((name, p) ∷ es) = ap (λ ns. name ∷ ns) (names-platforms es)

names-pools : (es : List (Bytes × Pool)) → map pool_name (map pool_runtime es) ≡ names es
unfolding pool_runtime
names-pools [] = refl
names-pools ((name, p) ∷ es) = ap (λ ns. name ∷ ns) (names-pools es)

-- The dashboard shows the platforms of the configuration and the pools as they are, each once and in
-- the order of their names, with the number of all keys, of the active ones, and of the others.
pub record IsOverview (m : Manager) (s : Store) (o : Overview) : Type 0 where
  pub platforms : Perm o.platforms (map platform_overview m.cfg.platforms)
  pub platforms_sorted : AreSorted (map platform_name o.platforms)
  pub platform_count : o.platform_count ≡ length o.platforms
  pub pools : Perm o.credential_pools (map pool_runtime (pools_from 0 m.built.pools s))
  pub pools_sorted : AreSorted (map pool_name o.credential_pools)
  pub all : o.counts.key_count ≡ all_keys (pools_from 0 m.built.pools s)
  pub actives : o.counts.active_key_count ≡ active_keys (pools_from 0 m.built.pools s)
  pub problems :
      o.counts.active_key_count + o.counts.problem_key_count
      ≡ all_keys (pools_from 0 m.built.pools s)

-- Overview shows the platforms of the configuration and the pools in their present state, each once and
-- in the order of their names; it counts the platforms, all keys, the keys with the status active, and
-- the others.
pub overview-IsOverview :
    (config_path : Bytes) (m : Manager) (s : Store) → IsOverview m s (overview config_path m s)
unfolding overview snapshot_pools
overview-IsOverview config_path m s =
    let now = pools_from 0 m.built.pools s in
    let counts = count_pools-Counts no_keys (sort_entries now) in
    let every = total-sort_entries (λ (p : Pool). length p.keys) now in
    let some_active = total-sort_entries (λ (p : Pool). count_active p.keys) now in
    record {
      platforms = Perm.map platform_overview (sort_entries-perm m.cfg.platforms);
      platforms_sorted =
          rw (names-platforms (sort_entries m.cfg.platforms))
            (names-AreSorted _ (sort_entries-IsSorted m.cfg.platforms));
      platform_count = omega (
        arith,
        length-map platform_overview (sort_entries m.cfg.platforms),
        length-sort_entries m.cfg.platforms,
      );
      pools = Perm.map pool_runtime (sort_entries-perm now);
      pools_sorted =
          rw (names-pools (sort_entries now)) (names-AreSorted _ (sort_entries-IsSorted now));
      all = omega (arith, counts.0, every);
      actives = omega (arith, counts.1, some_active);
      problems = omega (arith, counts.2, every);
    }
