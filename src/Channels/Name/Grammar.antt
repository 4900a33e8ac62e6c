-- ===== src/Channels/Name/Grammar.antt =====
-- What a well-formed channel name is, with no parser in it, and what the validation of components
-- decides.
use parsec.Common.{
  ℕ, ◌≤◌, true, List, [], ◌∷◌, ◌≡◌, ◌≢◌, ◌↔◌, ◌⊎◌, refl, arith, All, Lacks, Text, Bool-cases, inl,
  inr,
}
use mathlib.Core.List.{cons-ne-nil}
use parsec.Errors.{ok, ◌>>◌, Result-cases}
use parsec.Channels.Name.{
  Name, visibility_public, visibility_private, is_component_byte, all_component_bytes,
  validate_component, validate_components,
}

abbrev pub IsComponentByte : ℕ → Type 0
IsComponentByte r = ((b'a' ≤ r) × (r ≤ b'z')) ⊎ ((b'0' ≤ r) × (r ≤ b'9')) ⊎ (r ≡ b'-') ⊎ (r ≡ b'_')

abbrev pub IsComponent : Text → Type 0
IsComponent s = (s ≢ []) × All IsComponentByte s

-- A visibility that the grammar knows.
abbrev pub IsVisibility : Text → Type 0
IsVisibility v = (v ≡ visibility_public) ⊎ (v ≡ visibility_private)

-- A topic stands behind an id only, and a private channel has an id.
pub record IsName (n : Name) : Type 0 where
  pub visibility : IsVisibility n.visibility
  pub app : IsComponent n.app
  pub domain : IsComponent n.domain
  pub id : (n.id ≡ []) ⊎ IsComponent n.id
  pub topic : (n.topic ≡ []) ⊎ IsComponent n.topic
  pub topic_behind_id : n.topic ≢ [] → n.id ≢ []
  pub private_with_id : n.visibility ≡ visibility_private → n.id ≢ []

is_component_byte_iff : (r : ℕ) → (is_component_byte r ≡ true) ↔ IsComponentByte r
unfolding is_component_byte
is_component_byte_iff r = ground arith

all_component_bytes-IsComponentByte :
    (s : Text) → all_component_bytes s ≡ true → All IsComponentByte s
unfolding all_component_bytes
all_component_bytes-IsComponentByte [] h = tt
all_component_bytes-IsComponentByte (r ∷ s) h = elim (Bool-cases (is_component_byte r)) [
  | inl e ↦ (
    (is_component_byte_iff r).0 e,
    all_component_bytes-IsComponentByte s (rw (e, all_component_bytes) at h),
  )
  | inr e ↦ absurd (cc (rw (e, all_component_bytes) at h))
]

All→all_component_bytes : (s : Text) → All IsComponentByte s → all_component_bytes s ≡ true
unfolding all_component_bytes
All→all_component_bytes [] h = refl
All→all_component_bytes (r ∷ s) (hr, hs) =
    rw ((is_component_byte_iff r).1 hr) (All→all_component_bytes s hs)

pub validate_component_iff : (s : Text) → (validate_component s ≡ ok tt) ↔ IsComponent s
unfolding validate_component
validate_component_iff [] = (λ h. cc, λ h. absurd (h.0 refl))
validate_component_iff (r ∷ s) = elim (Bool-cases (all_component_bytes (r ∷ s))) [
  | inl e ↦ (λ h. (cons-ne-nil r s, all_component_bytes-IsComponentByte (r ∷ s) e), λ h. rw e)
  | inr e ↦ (λ h. cc e, λ h. cc (All→all_component_bytes (r ∷ s) h.1))
]

pub validate_components_iff :
    (ps : List Text) → (validate_components ps ≡ ok tt) ↔ All IsComponent ps
unfolding validate_components
validate_components_iff [] = (λ h. tt, λ h. refl)
validate_components_iff (p ∷ ps) = elim (Result-cases (validate_component p)) [
  | inl (u, e) ↦ (
    λ h. ((validate_component_iff p).0 (cc), (validate_components_iff ps).0 (rw (e, ◌>>◌) at h)),
    λ h. rw e ((validate_components_iff ps).1 h.1),
  )
  | inr (c, e) ↦ (λ h. cc (rw (e, ◌>>◌) at h), λ h. cc (e, (validate_component_iff p).1 h.0))
]

-- A component holds neither separator.
pub IsComponent-Lacks : (s : Text) → All IsComponentByte s → Lacks b':' s × Lacks b'.' s
IsComponent-Lacks [] h = (tt, tt)
IsComponent-Lacks (r ∷ s) (hr, hs) = ground (arith, IsComponent-Lacks s hs)
