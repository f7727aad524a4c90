-- ===== src/Service/Start.antt =====
-- src/service/ratelimit.go, NewService, up to the loop over the updates (serve_updates).
use api_ratelimit.Common.{
  if◌then◌else◌, Bool-cases, Outcome, returns, panics, Dict, ℕ, ◌≡◌, refl, inl, inr, Bool, false,
  none, some, [],
}
use api_ratelimit.Service.Update.{
  apply_settings, install, set_config, ConfigUpdateEvent, Settings, Server,
}
use api_ratelimit.Service.Worker.{Service}
use api_ratelimit.Config.Tree.{Node}
use api_ratelimit.Stats.{new_service_stats}
use api_ratelimit.Server.Health.{HealthChecker}

module _ {B : Type 0} where
  abbrev pub without_config : B → (ℕ → ℕ) → Bool → HealthChecker → Server B
  without_config backend clock shadow_mode health = record {
    service = record {
      config = none;
      headers = record {
        enabled = false;
        limit_header = [];
        remaining_header = [];
        reset_header = [];
      };
      global_shadow_mode = shadow_mode;
      stats = new_service_stats;
      calls = [];
      backend = backend;
      clock = clock;
    };
    health = health;
  }

  abbrev pub state_of : Outcome (Unit {0}) × Server B → Outcome (Server B)
  state_of (returns u, s) = returns s
  state_of (panics p, s) = panics p

  -- ratelimit.go, NewService, with the first event and the environment at that time. Without
  -- `force_start` it waits for the event.
  unfoldable pub new_service :
      Server B → Bool → Bool → Outcome Settings → ConfigUpdateEvent → Outcome (Server B)
  unfolding set_config
  new_service server force_start healthy settings event =
      if force_start then returns server else state_of (set_config settings healthy event server)

  pub install-config :
      (settings : Outcome Settings) (domains : Dict Node) (s : Service B)
      → (install settings domains s).1.config ≡ some domains
  unfolding install apply_settings
  install-config (panics p) domains s = refl
  install-config (returns settings) domains s =
      elim (Bool-cases settings.response_headers_enabled) [ inl e ↦ rw e refl | inr e ↦ rw e refl ]
