-- ===== src/Adb/Auth/Attempts.antt =====
-- How long a client can keep the handshake busy.
use yard.Prelude.{
  ℕ, zero, suc, ◌≡◌, refl, List, [], ◌∷◌, ◌++◌, Bytes, length, arith, Bool-cases, inl, inr,
}
use yard.Adb.Message.{Message}
use mathlib.Core.Path.{ap₂}
use yard.Adb.Auth.{react, Setting, Trace, is_cnxn, attempts, authenticate, challenge, fresh, clamp}

module _ {R : Type 0} (e : Setting R) where
  attempts-append :
      (limit n i : ℕ) (tried : List (Bytes × Bytes)) (xs ys zs : List Message) (t : Trace R)
      → length xs ≡ n
      → attempts e limit n i tried (xs ++ ys) t ≡ attempts e limit n i tried (xs ++ zs) t
  unfolding attempts
  attempts-append limit zero i tried xs ys zs t h = refl
  attempts-append limit (suc n) i tried [] ys zs t h = absurd (omega (arith, h))
  attempts-append limit (suc n) i tried (m ∷ xs) ys zs t h =
      let k : length xs ≡ n = omega (arith, h) in
      ap₂ (react e limit i tried m t)
        (attempts-append limit n (suc i) (tried ++ (e.tokens i, m.payload) ∷ []) xs ys zs
          (challenge e (suc i) t) k)
        (attempts-append limit n i tried xs ys zs t k)

-- Sixteen frames behind the connect decide the handshake: whatever a client sends after them is not
-- looked at.
authenticate-append :
    {R : Type 0} (e : Setting R) (connect : Message) (xs ys zs : List Message)
    → length xs ≡ 16
    → authenticate e (connect ∷ (xs ++ ys)) ≡ authenticate e (connect ∷ (xs ++ zs))
unfolding authenticate
authenticate-append e connect xs ys zs h = elim (Bool-cases (is_cnxn connect.command)) [
  | inl c ↦
      rw c (attempts-append e (clamp e connect.arg1) 16 0 [] xs ys zs (challenge e 0 (fresh e)) h)
  | inr c ↦ rw c refl
]
