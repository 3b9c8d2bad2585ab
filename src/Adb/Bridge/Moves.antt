-- ===== src/Adb/Bridge/Moves.antt =====
-- Each turn of a pump, and each frame but an opening or an acknowledgement, is such a move.
use yard.Prelude.{
  ℕ, zero, suc, ◌≤◌, ◌≡◌, ◌≢◌, refl, ap, ◌∙◌, Bool, true, false, Option, none, some, List, [], ◌∷◌,
  ◌==◌, leb, ltb, if◌then◌else◌, Bytes, length, arith, nat_key, Bool-cases, Option-cases, inl, inr,
}
use yard.Prelude.Dict.{lookup}
use yard.Adb.Message.{Message, Command, empty}
use yard.Adb.Bridge.{
  Stream, Session, Turn, send, put, active, on_close, enqueue, on_write, unlist_all, close_all,
  receive, read_device, forward, abort, turn, pump, waiting, holding, closing, finished, receives,
  reads, forwards, leaves, is_aborted, Phase, is_finished,
}
use yard.Adb.Bridge.Views.{permits_of, is_wrte}
use yard.Adb.Bridge.Spends.{
  Spends, Spends-refl, Spends-trans, put-Spends, send-Spends, streams-send, forward-Spends,
  drop_stream-Spends,
}

-- What holds of a step's session, where there is one.
abbrev pub Holds : (Session → Type 0) → Option Session → Type 0
Holds P none = Unit {0}
Holds P (some s) = P s

module _ (s : Session) (local : ℕ) (t : Stream) (here : lookup local s.streams ≡ some t) where
  present : lookup local s.streams ≢ none
  present n = ground (arith, here, n)

  put_sent :
      (w : Bool) (c : Command) (v : Stream)
      → is_wrte c ≡ false
      → v.permits ≤ t.permits
      → Spends s (put local v (send w (empty c local t.remote) s))
  put_sent w c v h k =
      let m : Message = empty c local t.remote in
      Spends-trans (send-Spends w m h present)
        (put-Spends local v (ap (lookup local) (streams-send w m s) ∙ here) k)

  receive-Spends : (device w : Bool) → Holds (Spends s) (receive local t device w s)
  receive-Spends device w = go t.queue refl
    where
      go : (q : List Bytes) → t.queue ≡ q → Holds (Spends s) (receive local t device w s)
      go [] e = elim (Bool-cases t.listed) [
        | inl l ↦ rw (e, receive) (rw l tt)
        | inr l ↦ rw (e, receive) (rw l (put-Spends local _ here (omega arith)))
      ]
      go (d ∷ ds) e = elim (Bool-cases device) [
        | inl b ↦ rw (e, receive) (rw b (put_sent w _ _ refl (omega arith)))
        | inr b ↦ rw (e, receive) (rw b (put-Spends local _ here (omega arith)))
      ]

  read_device-Spends : (chunk : Bytes) → Holds (Spends s) (read_device local t chunk s)
  read_device-Spends [] = put-Spends local _ here (omega arith)
  read_device-Spends (b ∷ bs) = elim (Bool-cases (leb (length (b ∷ bs)) s.max_payload)) [
    | inl h ↦ rw h (put-Spends local _ here (omega arith))
    | inr h ↦ rw h tt
  ]

  forwarded : (chunk : Bytes) (w : Bool) → Holds (Spends s) (forward local t chunk w s)
  forwarded chunk w = go t.permits refl
    where
      go : (p : ℕ) → t.permits ≡ p → Holds (Spends s) (forward local t chunk w s)
      go zero e = rw (e, forward) tt
      go (suc p) e = rw (e, forward) (forward-Spends local _ w _ here (omega (arith, e)) refl)

  abort-Spends : Holds (Spends s) (abort local t s)
  abort-Spends = elim (Bool-cases t.listed) [
    | inl h ↦ rw (h, abort) tt
    | inr h ↦ rw (h, abort) (drop_stream-Spends s local)
  ]

  turn-Spends : (p : Phase) (k : Turn) → Holds (Spends s) (turn local t p k s)
  unfolding turn
  turn-Spends waiting (receives b w) = receive-Spends b w
  turn-Spends waiting (reads c) = read_device-Spends c
  turn-Spends waiting (forwards w) = tt
  turn-Spends waiting (leaves w) = tt
  turn-Spends waiting is_aborted = abort-Spends
  turn-Spends (holding chunk) (receives b w) = tt
  turn-Spends (holding chunk) (reads c) = tt
  turn-Spends (holding chunk) (forwards w) = forwarded chunk w
  turn-Spends (holding chunk) (leaves w) = tt
  turn-Spends (holding chunk) is_aborted = abort-Spends
  turn-Spends closing (receives b w) = tt
  turn-Spends closing (reads c) = tt
  turn-Spends closing (forwards w) = tt
  turn-Spends closing (leaves w) = put_sent w _ _ refl (omega arith)
  turn-Spends closing is_aborted = abort-Spends
  turn-Spends finished (receives b w) = tt
  turn-Spends finished (reads c) = tt
  turn-Spends finished (forwards w) = tt
  turn-Spends finished (leaves w) = tt
  turn-Spends finished is_aborted = abort-Spends

  enqueue-Spends : (payload : Bytes) → Holds (Spends s) (enqueue local t payload s)
  enqueue-Spends payload = elim (Bool-cases (is_finished t.phase)) [
    | inl h ↦ rw (h, enqueue) (put-Spends local _ here (omega arith))
    | inr h ↦
        rw (h, enqueue)
          (elim (Bool-cases (ltb (length t.queue) 8)) [
            | inl i ↦ rw i (put-Spends local _ here (omega arith))
            | inr i ↦ rw i tt
          ])
  ]

pub pump-Spends : (s : Session) (local : ℕ) (k : Turn) → Holds (Spends s) (pump local k s)
unfolding pump
pump-Spends s local k = elim (Option-cases (lookup local s.streams)) [
  | inl h ↦ rw (h, pump) tt
  | inr (t, h) ↦ rw (h, pump) (turn-Spends s local t h t.phase k)
]

pub active-Spends : (s : Session) → Spends s (active s)
active-Spends s = record {
  next = refl;
  gone = λ l h. h;
  quiet = λ l h. refl;
  load_le = λ l. omega arith;
  still_told = λ l h. h;
  announced = λ f h. h;
  asked = refl;
}

pub Holds-map :
    (P Q : Session → Type 0)
    → ((s : Session) → P s → Q s)
    → (o : Option Session) → Holds P o
    → Holds Q o
Holds-map P Q f none h = tt
Holds-map P Q f (some s) h = f s h

pub Holds-if :
    (P : Session → Type 0) (c : Bool) (x y : Option Session)
    → Holds P x
    → Holds P y
    → Holds P (if c then x else y)
Holds-if P true x y h k = h
Holds-if P false x y h k = k

pub on_write-Spends :
    (s : Session) (local : ℕ) (payload : Bytes) → Holds (Spends s) (on_write local payload s)
unfolding on_write
on_write-Spends s local payload = elim (Option-cases (lookup local s.streams)) [
  | inl h ↦ rw (h, on_write) (active-Spends s)
  | inr (t, h) ↦
      rw (h, on_write)
        (Holds-if (Spends s) t.listed (enqueue local t payload (active s)) (some (active s))
          (Holds-map (Spends (active s)) (Spends s) (λ v k. Spends-trans (active-Spends s) k)
            (enqueue local t payload (active s)) (enqueue-Spends (active s) local t h payload))
          (active-Spends s))
]

pub on_close-Spends : (s : Session) (local : ℕ) → Spends s (on_close local s)
unfolding on_close
on_close-Spends s local = elim (Option-cases (lookup local s.streams)) [
  | inl h ↦ rw (h, on_close) (Spends-refl s)
  | inr (t, h) ↦
      rw (h, on_close)
        (elim (Bool-cases t.listed) [
          | inl i ↦ rw i (put-Spends local _ h (omega arith))
          | inr i ↦ rw i (Spends-refl s)
        ])
]

-- Unlisting every stream leaves each with its permits.
pub look-unlist_all :
    (l : ℕ) (m : List (ℕ × Stream))
    → (lookup l m ≡ none → lookup l (unlist_all m) ≡ none)
      × (permits_of (lookup l (unlist_all m)) ≡ permits_of (lookup l m))
unfolding lookup
look-unlist_all l [] = (λ h. h, refl)
look-unlist_all l ((k, t) ∷ m) = elim (Bool-cases (k == l)) [
  | inl h ↦ rw (h, lookup) (λ q. ground (arith, q), refl)
  | inr h ↦ rw (h, lookup) (look-unlist_all l m)
]

pub close_all-Spends : (s : Session) → Spends s (close_all s)
unfolding close_all
close_all-Spends s = record {
  next = refl;
  gone = λ l. (look-unlist_all l s.streams).0;
  quiet = λ l q. refl;
  load_le = λ l. omega (arith, (look-unlist_all l s.streams).1);
  still_told = λ l h. h;
  announced = λ f h. h;
  asked = refl;
}
