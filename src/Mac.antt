-- ===== src/Mac.antt =====
-- `pnet::util::MacAddr`: six octets, a key of the device tables.
use tsn_fieldbus.Base.{ℕ, List, [], ◌∷◌, ◌==◌, ◌&&◌, Bool, true, ◌≡◌, ◌↔◌, arith, Eq}

pub data MacAddr : Type 0 where
  mac : ℕ → ℕ → ℕ → ℕ → ℕ → ℕ → MacAddr

abbrev pub octets : MacAddr → List ℕ
octets (mac a b c d e f) = a ∷ b ∷ c ∷ d ∷ e ∷ f ∷ []

abbrev pub mac_beq : MacAddr → MacAddr → Bool
mac_beq (mac a b c d e f) (mac a' b' c' d' e' f') =
    a == a' && b == b' && c == c' && d == d' && e == e' && f == f'

pub mac_beq_iff : (x y : MacAddr) → (mac_beq x y ≡ true) ↔ (x ≡ y)
mac_beq_iff (mac a b c d e f) (mac a' b' c' d' e' f') = (λ h. ground arith, λ h. ground arith)

instance abbrev pub mac_eq : Eq MacAddr
mac_eq = record { beq = mac_beq; beq_iff = mac_beq_iff }
