-- ===== src/Models/Tests.antt =====
-- The theorems on endpoints at concrete inputs.
use kou_router.Prelude.{true, false, [], ◌∷◌, ◌≡◌, refl, ◌↔◌, Some}
use kou_router.Text.{to_ascii_lowercase, trim}
use kou_router.Models.Endpoint.{
  messages, images_generations, supports_endpoint, embeddings, capability, is_chat_family,
}
use kou_router.Models.Endpoint.Laws.{supports_endpoint_iff, Declares, accepted}

supports_tests :
    (supports_endpoint (" Chat " ∷ []) messages ≡ true)
    × (supports_endpoint ("images.generations" ∷ []) images_generations ≡ true)
    × (supports_endpoint ("chat" ∷ "audio" ∷ []) embeddings ≡ false)
unfolding supports_endpoint trim to_ascii_lowercase capability is_chat_family
supports_tests = (refl, refl, refl)

supports_endpoint_iff_example :
    (supports_endpoint [] messages ≡ true)
    × ((supports_endpoint (" Chat " ∷ []) messages ≡ true)
        ↔ Some (λ name. Declares (" Chat " ∷ []) name) (accepted messages))
supports_endpoint_iff_example = supports_endpoint_iff " Chat " [] messages
