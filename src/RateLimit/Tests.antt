-- ===== src/RateLimit/Tests.antt =====
-- Requests to the strict login limit.
use meterplex.Prelude.{ℕ, ◌≡◌, refl, none, some, List, [], ◌∷◌}
use meterplex.Text.{codes}
use meterplex.Billing.Tests.{open_db}
use meterplex.Usage.Redis.{cache_read}
use meterplex.RateLimit.{Caller, auth_strict, get_identifier}
use meterplex.RateLimit.Window.{passed, counter, window_limit}

abbrev visitor : Caller
visitor = record {
  ip = some (codes "10.0.0.1");
  remote_address = none;
  user_id = none;
  api_key_id = none;
  tenant_header = none;
}

-- Seven requests in the first minute
abbrev burst : List (ℕ × ℕ)
burst =
    (0, 5)
    ∷ (900, 905)
    ∷ (1000, 1005)
    ∷ (20000, 20005)
    ∷ (30000, 30005)
    ∷ (40000, 40005)
    ∷ (59999, 60004)
    ∷ []

window_limit_example : passed auth_strict visitor burst open_db ≡ 5
unfolding get_identifier counter cache_read
window_limit_example =
    window_limit auth_strict visitor 49 (codes "0.0.0.1") 0 burst open_db refl refl refl
      (refl, (refl, (refl, (refl, (refl, (refl, (refl, tt)))))))
