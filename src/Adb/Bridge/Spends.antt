-- ===== src/Adb/Bridge/Spends.antt =====
-- Moves that open no stream and give no permit.
use yard.Prelude.{
  ℕ, ◌+◌, ◌≤◌, ◌≡◌, ◌≢◌, ◌⊎◌, refl, sym, ap, ◌∙◌, subst, Bool, true, false, none, some, List, ◌==◌,
  arith, nat_key, Bool-cases, inl, inr,
}
use yard.Prelude.Dict.{lookup, insert, remove, lookup-insert, lookup-remove}
use yard.Adb.Message.{Message}
use yard.Adb.Bridge.{Stream, Session, send, put, drop_stream}
use yard.Adb.Bridge.Views.{permits_of, is_wrte, wrtes, told, Announced}

-- What a stream may still write, and has written.
abbrev pub load : ℕ → Session → ℕ
load l s = wrtes l s.sent + permits_of (lookup l s.streams)

-- A move that opens nothing and gives no permit.
pub record Spends (s t : Session) : Type 0 where
  pub next : t.next_id ≡ s.next_id
  pub gone : (l : ℕ) → lookup l s.streams ≡ none → lookup l t.streams ≡ none
  pub quiet : (l : ℕ) → lookup l s.streams ≡ none → wrtes l t.sent ≡ wrtes l s.sent
  pub load_le : (l : ℕ) → load l t ≤ load l s
  pub still_told : (l : ℕ) → told l s.sent ≡ true → told l t.sent ≡ true
  pub announced :
      ((l : ℕ) → lookup l s.streams ≢ none → told l s.sent ≡ true)
      → Announced s.sent
      → Announced t.sent
  pub asked : t.asked ≡ s.asked

pub Spends-refl : (s : Session) → Spends s s
Spends-refl s = record {
  next = refl;
  gone = λ l h. h;
  quiet = λ l h. refl;
  load_le = λ l. omega arith;
  still_told = λ l h. h;
  announced = λ f h. h;
  asked = refl;
}

pub Spends-trans : {s t u : Session} → Spends s t → Spends t u → Spends s u
Spends-trans h k = record {
  next = k.next ∙ h.next;
  gone = λ l q. k.gone l (h.gone l q);
  quiet = λ l q. k.quiet l (h.gone l q) ∙ h.quiet l q;
  load_le = λ l. omega (arith, h.load_le l, k.load_le l);
  still_told = λ l q. k.still_told l (h.still_told l q);
  announced =
      λ f q. k.announced (λ l p. h.still_told l (f l (λ n. p (h.gone l n)))) (h.announced f q);
  asked = k.asked ∙ h.asked;
}

pub look-insert :
    (a l : ℕ) (t : Stream) (m : List (ℕ × Stream))
    → ((a ≡ l) × (lookup l (insert a t m) ≡ some t))
      ⊎ ((a ≢ l) × (lookup l (insert a t m) ≡ lookup l m))
look-insert a l t m = elim (Bool-cases (a == l)) [
  | inl h ↦ inl (ground (arith, h), rw (lookup-insert a l t m, h) refl)
  | inr h ↦ inr (ground (arith, h), rw (lookup-insert a l t m, h) refl)
]

pub put-Spends :
    {s : Session} (local : ℕ) (t : Stream) {u : Stream}
    → lookup local s.streams ≡ some u
    → t.permits ≤ u.permits
    → Spends s (put local t s)
put-Spends {s} local t {u} h k = record {
  next = refl;
  gone = λ l q. elim (look-insert local l t s.streams) [
    | inl (e, i) ↦ ground (arith, h, subst (λ n. lookup n s.streams ≡ none) (sym e) q)
    | inr (e, i) ↦ i ∙ q
  ];
  quiet = λ l q. refl;
  load_le = λ l. elim (look-insert local l t s.streams) [
    | inl (e, i) ↦ omega (
      arith,
      k,
      ap permits_of i,
      subst (λ n. permits_of (lookup n s.streams) ≡ u.permits) e (ap permits_of h),
    )
    | inr (e, i) ↦ omega (arith, ap permits_of i)
  ];
  still_told = λ l h. h;
  announced = λ f h. h;
  asked = refl;
}

-- A message of a stream that is there; anything but a write is free.
pub send-Spends :
    {s : Session} (w : Bool) (m : Message)
    → is_wrte m.command ≡ false
    → lookup m.arg0 s.streams ≢ none
    → Spends s (send w m s)
unfolding wrtes told Announced
send-Spends {s} false m h a = Spends-refl s
send-Spends {s} true m h a = record {
  next = refl;
  gone = λ l q. q;
  quiet = λ l q. rw h (omega arith);
  load_le = λ l. rw h (omega arith);
  still_told = λ l q. ground (arith, q);
  announced = λ f q. (inr (inr (f m.arg0 a)), q);
  asked = refl;
}

pub streams-send : (w : Bool) (m : Message) (s : Session) → (send w m s).streams ≡ s.streams
streams-send true m s = refl
streams-send false m s = refl

-- A write for one permit.
pub forward-Spends :
    {s : Session} (local : ℕ) (t : Stream) (w : Bool) (m : Message) {u : Stream}
    → lookup local s.streams ≡ some u
    → u.permits ≡ t.permits + 1
    → m.arg0 ≡ local
    → Spends s (put local t (send w m s))
unfolding wrtes told Announced
forward-Spends {s} local t false m {u} h k e = put-Spends local t h (omega (arith, k))
forward-Spends {s} local t true m {u} h k e =
    let freed : Spends s (put local t s) = put-Spends local t h (omega (arith, k)) in
    record {
      next = refl;
      gone = freed.gone;
      quiet = λ l q. elim (Bool-cases (m.arg0 == l)) [
        | inl c ↦
            let here : lookup l s.streams ≡ some u =
              subst (λ n. lookup n s.streams ≡ some u) (ground (arith, e, c)) h in
            ground (arith, here, q)
        | inr c ↦ ground (arith, c)
      ];
      load_le = λ l. elim (look-insert local l t s.streams) [
        | inl (c, i) ↦
            let here : lookup l s.streams ≡ some u = subst (λ n. lookup n s.streams ≡ some u) c h in
            ground (arith, ap permits_of i, ap permits_of here, k)
        | inr (c, i) ↦
            let away : (m.arg0 == l) ≡ false = ground (arith, e, c) in
            ground (arith, ap permits_of i, away)
      ];
      still_told = λ l q. ground (arith, q);
      announced = λ f q.
          let there : lookup m.arg0 s.streams ≢ none =
            λ n. ground (arith, subst (λ x. lookup x s.streams ≡ some u) (sym e) h, n) in
          (inr (inr (f m.arg0 there)), q);
      asked = refl;
    }

pub look-remove :
    (a l : ℕ) (m : List (ℕ × Stream))
    → (lookup l (remove a m) ≡ none) ⊎ (lookup l (remove a m) ≡ lookup l m)
look-remove a l m = elim (Bool-cases (a == l)) [
  | inl h ↦ inl (rw (lookup-remove a l m, h) refl)
  | inr h ↦ inr (rw (lookup-remove a l m, h) refl)
]

pub drop_stream-Spends : (s : Session) (local : ℕ) → Spends s (drop_stream local s)
drop_stream-Spends s local = record {
  next = refl;
  gone = λ l q. elim (look-remove local l s.streams) [ inl i ↦ i | inr i ↦ i ∙ q ];
  quiet = λ l q. refl;
  load_le = λ l. elim (look-remove local l s.streams) [
    | inl i ↦ omega (arith, ap permits_of i)
    | inr i ↦ omega (arith, ap permits_of i)
  ];
  still_told = λ l h. h;
  announced = λ f h. h;
  asked = refl;
}
