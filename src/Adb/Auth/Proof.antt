-- ===== src/Adb/Auth/Proof.antt =====
-- Who gets in: what a successful handshake proves.
use yard.Prelude.{
  ℕ, zero, suc, ◌≤◌, ◌≡◌, refl, ◌∙◌, subst, ◌⊎◌, inl, inr, Bool, true, false, ◌&&◌, Option, none,
  some, List, [], ◌∷◌, ◌++◌, ◌==◌, if◌then◌else◌, Bytes, Text, drop, get_elem?, find, Result, ok,
  err, arith, Bool-cases, Option-cases,
}
use yard.Adb.Message.{
  Message, Command, cnxn, open_, okay, clse, wrte, stls, sync, auth, auth_signature,
  auth_rsapublickey, max_payload, payload_str,
}
use yard.Adb.Key.{PublicKey, parse}
use yard.Adb.Auth.{
  Setting, Trace, Identity, Handshake, Answer, is_auth, is_cnxn, verify, matching, owned, proves,
  ask, offer, attempts, authenticate, clamp, challenge, fresh, max_attempts,
}

-- The signatures that the client sent, in order.
unfoldable pub signatures : List Message → List Bytes
signatures [] = []
signatures (m ∷ ms) =
    if is_auth m.command && (m.arg0 == auth_signature)
    then m.payload ∷ signatures ms
    else signatures ms

unfoldable pub In : {A : Type 0} → A → List A → Type 0
In a [] = ⊥
In a (x ∷ xs) = (x ≡ a) ⊎ In a xs

abbrev Found : {A : Type 0} → (A → Bool) → List A → Option A → Type 0
Found p xs none = Unit {0}
Found p xs (some a) = (p a ≡ true) × In a xs

widen :
    {A : Type 0} (p : A → Bool) (x : A) (xs : List A) (o : Option A)
    → Found p xs o
    → Found p (x ∷ xs) o
unfolding In
widen p x xs none h = tt
widen p x xs (some a) h = (h.0, inr h.1)

find-Found : {A : Type 0} (p : A → Bool) (xs : List A) → Found p xs (find p xs)
unfolding In
find-Found p [] = tt
find-Found p (x ∷ xs) = elim (Bool-cases (p x)) [
  | inl q ↦ rw (q, find) (q, inl refl)
  | inr q ↦ rw (q, find) (widen p x xs (find p xs) (find-Found p xs))
]

drop-cons :
    {A : Type 0} (i : ℕ) (xs : List A) (a : A) (ys : List A)
    → drop i xs ≡ a ∷ ys
    → (get_elem? xs i ≡ some a) × (drop (suc i) xs ≡ ys)
drop-cons zero [] a ys h = ground (arith, h)
drop-cons zero (x ∷ xs) a ys h = ground (arith, h)
drop-cons (suc i) [] a ys h = ground (arith, h)
drop-cons (suc i) (x ∷ xs) a ys h = drop-cons i xs a ys h

module _ {R : Type 0} (e : Setting R) (sigs : List Bytes) where
  -- The key signed the very challenge that was outstanding when the client answered: the `j`th
  -- signature is over the `j`th token.
  unfoldable pub Signed : PublicKey R → Type 0
  Signed key =
      (j : ℕ) × (sig : Bytes) × (get_elem? sigs j ≡ some sig)
      × (verify e key (e.tokens j) sig ≡ true)

  -- Either an entitled key signed, or the farm said yes to one that did.
  unfoldable pub Admitted : Identity → Type 0
  Admitted who =
      ((key : PublicKey R) × In key e.entitled × Signed key × (who ≡ owned e key))
      ⊎ ((key : PublicKey R) × (user : Text) × Signed key
          × (e.request key ≡ some user)
          × (who ≡ record { user_id = user; fingerprint = key.fingerprint }))

  AllTried : List (Bytes × Bytes) → Type 0
  AllTried [] = Unit {0}
  AllTried (a ∷ as_) = ((j : ℕ) × (get_elem? sigs j ≡ some a.1) × (a.0 ≡ e.tokens j)) × AllTried as_

  AllTried-push :
      (xs : List (Bytes × Bytes)) (j : ℕ) (sig : Bytes)
      → get_elem? sigs j ≡ some sig
      → AllTried xs
      → AllTried (xs ++ (e.tokens j, sig) ∷ [])
  unfolding AllTried
  AllTried-push [] j sig h k = ((j, h, refl), tt)
  AllTried-push (x ∷ xs) j sig h k = (k.0, AllTried-push xs j sig h k.1)

  proves-Signed :
      (xs : List (Bytes × Bytes)) (key : PublicKey R)
      → AllTried xs
      → proves e xs key ≡ true
      → Signed key
  unfolding AllTried Signed
  proves-Signed [] key h k = ground (arith, k)
  proves-Signed (x ∷ xs) key ((j, g, t), h) k = elim (Bool-cases (verify e key x.0 x.1)) [
    | inl q ↦ (j, x.1, g, subst (λ b. verify e key b x.1 ≡ true) t q)
    | inr q ↦ proves-Signed xs key h (ground (arith, k, q))
  ]

  Good : ℕ → Answer e → Type 0
  Good limit (err reason, t) = Unit {0}
  Good limit (ok h, t) = Admitted h.identity × (h.max_payload ≡ limit)

  ask-Good :
      (limit : ℕ) (key : PublicKey R) (t : Trace R) → Signed key → Good limit (ask e limit key t)
  unfolding Good Admitted
  ask-Good limit key t h = elim (Option-cases (e.request key)) [
    | inl q ↦ rw (q, ask) tt
    | inr (user, q) ↦ rw (q, ask) (inr (key, user, h, q, refl), refl)
  ]

  Result-cases : {E A : Type 0} (r : Result E A) → ((x : E) × (r ≡ err x)) ⊎ ((a : A) × (r ≡ ok a))
  Result-cases (err x) = inl (x, refl)
  Result-cases (ok a) = inr (a, refl)

  offer-Good :
      (limit : ℕ) (xs : List (Bytes × Bytes)) (m : Message) (t : Trace R)
      → AllTried xs
      → Good limit (offer e limit xs m t)
  unfolding offer Good
  offer-Good limit xs m t h = elim (Result-cases (parse e.rsa (payload_str e.lossy m))) [
    | inl (x, q) ↦ rw (q, offer) tt
    | inr (key, q) ↦
        rw (q, offer)
          (elim (Bool-cases (proves e xs key)) [
            | inl p ↦ rw p (ask-Good limit key t (proves-Signed xs key h p))
            | inr p ↦ rw p tt
          ])
  ]

  -- The entitled key that signed the outstanding challenge.
  matched-Admitted :
      (i : ℕ) (sig : Bytes) (key : PublicKey R)
      → matching e i sig ≡ some key
      → get_elem? sigs i ≡ some sig
      → Admitted (owned e key)
  unfolding matching Admitted Signed
  matched-Admitted i sig key q g =
      let tests : PublicKey R → Bool = λ k. verify e k (e.tokens i) sig in
      let f : Found tests e.entitled (some key) =
        subst (Found tests e.entitled) q (find-Found tests e.entitled) in
      inl (key, f.1, (i, sig, g, f.0), refl)

  attempts-Good :
      (limit n i : ℕ) (xs : List (Bytes × Bytes)) (fs : List Message) (t : Trace R)
      → AllTried xs
      → drop i sigs ≡ signatures fs
      → Good limit (attempts e limit n i xs fs t)
  unfolding attempts Good signatures
  attempts-Good limit zero i xs fs t h d = tt
  attempts-Good limit (suc n) i xs [] t h d = tt
  attempts-Good limit (suc n) i xs (m ∷ fs) t h d = elim (Bool-cases (is_auth m.command)) [
    | inl a ↦ elim (Bool-cases (m.arg0 == auth_signature)) [
      | inl s ↦
          let c : drop i sigs ≡ m.payload ∷ signatures fs = d ∙ rw (a, s) refl in
          let (g, d') = drop-cons i sigs m.payload (signatures fs) c in
          elim (Option-cases (matching e i m.payload)) [
            | inl q ↦
                rw (a, s, q)
                  (attempts-Good limit n (suc i) (xs ++ (e.tokens i, m.payload) ∷ []) fs
                    (challenge e (suc i) t) (AllTried-push xs i m.payload g h) d')
            | inr (key, q) ↦ rw (a, s, q) (matched-Admitted i m.payload key q g, refl)
          ]
      | inr s ↦
          let c : drop i sigs ≡ signatures fs = d ∙ rw (a, s) refl in
          elim (Bool-cases (m.arg0 == auth_rsapublickey)) [
            | inl r ↦ rw (a, s, r) (offer-Good limit xs m t h)
            | inr r ↦ rw (a, s, r) (attempts-Good limit n i xs fs t h c)
          ]
    ]
    | inr a ↦ rw a tt
  ]

cnxn_not_auth : (c : Command) → is_cnxn c ≡ true → is_auth c ≡ false
cnxn_not_auth cnxn h = refl
cnxn_not_auth auth h = ground (arith, h)
cnxn_not_auth open_ h = refl
cnxn_not_auth okay h = refl
cnxn_not_auth clse h = refl
cnxn_not_auth wrte h = refl
cnxn_not_auth stls h = refl
cnxn_not_auth sync h = refl

module _ {R : Type 0} (e : Setting R) where
  Within : List Bytes → Answer e → Type 0
  Within sigs (err reason, t) = Unit {0}
  Within sigs (ok h, t) =
      Admitted e sigs h.identity × (1 ≤ h.max_payload) × (h.max_payload ≤ max_payload)

  Good-Within :
      (sigs : List Bytes) (n : ℕ) (r : Answer e) → Good e sigs (clamp e n) r → Within sigs r
  unfolding Good Within
  Good-Within sigs n (err reason, t) h = tt
  Good-Within sigs n (ok h, t) (a, l) = (a, omega (arith, l), omega (arith, l))

  authenticate-Within : (fs : List Message) → Within (signatures fs) (authenticate e fs)
  unfolding authenticate signatures Within AllTried
  authenticate-Within [] = tt
  authenticate-Within (m ∷ fs) = elim (Bool-cases (is_cnxn m.command)) [
    | inl c ↦
        let a : is_auth m.command ≡ false = cnxn_not_auth m.command c in
        rw (c, a)
          (Good-Within (signatures fs) m.arg1 _ (
            attempts-Good e (signatures fs) (clamp e m.arg1) max_attempts 0 [] fs
              (challenge e 0 (fresh e)) tt refl))
    | inr c ↦ rw c tt
  ]

-- Whoever gets in has signed the very challenge that was outstanding when the signature came, with a
-- key that is entitled and whose owner is named, or with one that the farm then allowed for the user it
-- named; and the limit agreed on is from 1 to the bridge's own.
pub authenticate-Admitted :
    {R : Type 0} (e : Setting R) (fs : List Message) (h : Handshake) (t : Trace R)
    → authenticate e fs ≡ (ok h, t)
    → Admitted e (signatures fs) h.identity × (1 ≤ h.max_payload) × (h.max_payload ≤ max_payload)
unfolding Within
authenticate-Admitted e fs h t q =
    subst (λ r. Within e (signatures fs) r) q (authenticate-Within e fs)
