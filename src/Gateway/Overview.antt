-- ===== src/Gateway/Overview.antt =====
-- internal/gateway/manager.go: Overview, and the snapshot of the pools in internal/admin/admin.go, which
-- shows the same. The pools are read in the state that they are in, `s`.
pub mod Counts
mod Tests
use all2api.Prelude.{ℕ, zero, suc, ◌+◌, Bool, List, [], ◌∷◌, ◌++◌, map, if◌then◌else◌, length, ℤ}
use all2api.Text.{Bytes, bytes, text_eq}
use all2api.Keypool.{Pool, KeyStateView, snapshot}
use all2api.Provider.{type_generic_http}
use all2api.Config.{Config, PlatformConfig}
use all2api.Proxy.Exchange.{Store}
use all2api.Gateway.{Manager, sort_entries}

pub record PlatformOverview : Type 0 where
  pub name : Bytes
  pub typ : Bytes
  pub base_url : Bytes
  pub credential_pool : Bytes
  pub timeout_seconds : ℤ
  pub auth_header : Bytes
  pub auth_prefix : Bytes

-- CredentialPoolRuntime, and CredentialPoolStatus of package admin, which has the same fields.
pub record CredentialPoolRuntime : Type 0 where
  pub name : Bytes
  pub keys : List KeyStateView

-- The counters of the loop over the keys.
pub record KeyCounts : Type 0 where
  pub key_count : ℕ
  pub active_key_count : ℕ
  pub problem_key_count : ℕ

pub record Overview : Type 0 where
  pub platform_count : ℕ
  pub credential_pool_count : ℕ
  pub counts : KeyCounts
  pub platforms : List PlatformOverview
  pub credential_pools : List CredentialPoolRuntime
  pub log_file : Bytes
  pub config_path : Bytes

-- Pools: the pools by their names, each at the reference that is its place.
unfoldable pub pools_from : ℕ → List (Bytes × Pool) → Store → List (Bytes × Pool)
pools_from r [] s = []
pools_from r ((name, p) ∷ ps) s = (name, s r) ∷ pools_from (suc r) ps s

unfoldable pub platform_overview : Bytes × PlatformConfig → PlatformOverview
unfolding text_eq
platform_overview (name, p) =
    let generic = text_eq p.typ type_generic_http in
    record {
      name = name;
      typ = p.typ;
      base_url = p.base_url;
      credential_pool = p.credential_pool;
      timeout_seconds = p.timeout_seconds;
      auth_header = if generic then p.auth.header else bytes "x-apisports-key";
      auth_prefix = if generic then p.auth.prefix else [];
    }

unfoldable pub pool_runtime : Bytes × Pool → CredentialPoolRuntime
unfolding snapshot
pool_runtime (name, p) = record { name = name; keys = snapshot p }

-- A round of the loop over the keys of a pool.
unfoldable pub count_key : KeyCounts → KeyStateView → KeyCounts
unfolding text_eq
count_key c k =
    let active = text_eq k.status (bytes "active") in
    record {
      key_count = c.key_count + 1;
      active_key_count = if active then c.active_key_count + 1 else c.active_key_count;
      problem_key_count = if active then c.problem_key_count else c.problem_key_count + 1;
    }

unfoldable pub count_keys : KeyCounts → List KeyStateView → KeyCounts
unfolding count_key
count_keys c [] = c
count_keys c (k ∷ ks) = count_keys (count_key c k) ks

-- The loop over the pools.
unfoldable pub count_pools : KeyCounts → List CredentialPoolRuntime → KeyCounts
unfolding count_keys
count_pools c [] = c
count_pools c (p ∷ ps) = count_pools (count_keys c p.keys) ps

abbrev pub no_keys : KeyCounts
no_keys = record { key_count = 0; active_key_count = 0; problem_key_count = 0 }

-- snapshotPools of package admin, and the list of pools in Overview
unfoldable pub snapshot_pools : List (Bytes × Pool) → List CredentialPoolRuntime
unfolding sort_entries pool_runtime
snapshot_pools pools = map pool_runtime (sort_entries pools)

-- Overview
unfoldable pub overview : Bytes → Manager → Store → Overview
unfolding pools_from sort_entries platform_overview snapshot_pools count_pools
overview config_path m s =
    let pools = snapshot_pools (pools_from 0 m.built.pools s) in
    record {
      platform_count = length m.cfg.platforms;
      credential_pool_count = length m.cfg.credential_pools;
      counts = count_pools no_keys pools;
      platforms = map platform_overview (sort_entries m.cfg.platforms);
      credential_pools = pools;
      log_file = m.cfg.management.log_file;
      config_path = config_path;
    }
