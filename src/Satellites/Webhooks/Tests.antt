-- ===== src/Satellites/Webhooks/Tests.antt =====
-- Deliveries on concrete answers, and a witness.
use adonisjs_lasagna_multite.Prelude.{
  ℕ, ◌+◌, ◌≡◌, ◌≤◌, refl, true, false, none, some, List, [], ◌∷◌, ◌++◌, any, if◌then◌else◌, codes,
}
use adonisjs_lasagna_multite.Prelude.Effects.{returned, thrown}
use adonisjs_lasagna_multite.Satellites.Webhooks.{
  success, failed, Delivery, response, network_error, Heard, Outside, backoff_with_jitter, answered,
  new_delivery, attempts, send,
}
use adonisjs_lasagna_multite.Satellites.Webhooks.Settling.{is_ok, attempts-settles}

abbrev refused : Heard
refused = record { answer = response 500 false none; now = 0; random = 0 }

abbrev lost : Heard
lost = record { answer = network_error (codes "timeout"); now = 0; random = 4503599627370496 }

abbrev taken : Heard
taken = record { answer = response 204 true none; now = 0; random = 0 }

abbrev created : Delivery
created = new_delivery (codes "d") (codes "e") (codes "{}")

-- a secret that cannot be read
abbrev unreadable : Outside ℕ ℕ
unreadable = record {
  decrypt = λ secret. thrown 3;
  hmac_hex = λ secret body. [];
  fetch = λ url headers body w. (taken, w + 1);
  save = λ d w. (returned tt, w + 1);
}

webhook_tests :
    ((attempts (refused ∷ lost ∷ taken ∷ refused ∷ []) created).status ≡ success)
    × ((attempts (refused ∷ lost ∷ []) created).next_retry_at ≡ some 60)
    × ((attempts (refused ∷ []) created).next_retry_at ≡ some 8)
    × (send unreadable (record { url = []; secret = some (codes "x") }) created 0 ≡ (thrown 3, 0))
unfolding attempts answered backoff_with_jitter send
webhook_tests = (refl, refl, refl, refl)

abbrev five : List Heard
five = refused ∷ lost ∷ refused ∷ refused ∷ taken ∷ []

attempts-settles_example :
    ((attempts (five ++ refused ∷ []) created).status
      ≡ (if any is_ok five then success else failed))
    × ((attempts (five ++ refused ∷ []) created).attempt ≤ 5)
attempts-settles_example =
    attempts-settles (codes "d") (codes "e") (codes "{}") five (refused ∷ []) refl
