-- ===== src/Adb/Bridge/Credit.antt =====
-- What holds of every session: one unacknowledged write per stream, no word ahead of a stream's OKAY,
-- and no refused service.
use yard.Prelude.{
  ℕ, ◌+◌, ◌%◌, ◌≤◌, ◌<◌, ◌≡◌, ◌≢◌, refl, sym, ap, ◌∙◌, subst, Bool, true, false, none, some, List,
  [], ◌∷◌, ◌==◌, if◌then◌else◌, Bytes, Text, length, arith, nat_key, Bool-cases, Option-cases, inl,
  inr,
}
use yard.Prelude.Words.{u32_mod}
use yard.Prelude.Dict.{lookup}
use yard.Adb.Message.{Message, okay, clse, empty}
use yard.Adb.Bridge.{
  Stream, Session, Event, start, take_id, send, put, active, refuse, opened, open_stream, on_open,
  on_write, on_okay, pump, step, opens, writes, okays, closes, ignored, hangs_up, pumps, refused,
  refusal,
}
use yard.Adb.Bridge.Reach.{Reach, begin, later}
use yard.Adb.Bridge.Views.{permits_of, is_wrte, wrtes, told, Announced, okays_for}
use yard.Adb.Bridge.Spends.{load, Spends, Spends-refl, look-insert}
use yard.Adb.Bridge.Moves.{
  Holds, Holds-map, pump-Spends, on_write-Spends, on_close-Spends, close_all-Spends,
}

-- No service that outlives a session.
unfoldable pub AllAllowed : List Text → Type 0
AllAllowed [] = Unit {0}
AllAllowed (service ∷ services) = (refused service ≡ none) × AllAllowed services

-- What holds of a session that the events `es` led to, the newest first.
record Inv (es : List Event) (s : Session) : Type 0 where
  next_le : s.next_id ≤ length es + 1
  streams_below : (l : ℕ) → s.next_id ≤ l → lookup l s.streams ≡ none
  sent_below : (l : ℕ) → s.next_id ≤ l → wrtes l s.sent ≡ 0
  credit : (l : ℕ) → load l s ≤ 1 + okays_for l es
  all_told : (l : ℕ) → lookup l s.streams ≢ none → told l s.sent ≡ true
  order : Announced s.sent
  allowed : AllAllowed s.asked

Inv-Spends : {es : List Event} {s t : Session} (e : Event) → Inv es s → Spends s t → Inv (e ∷ es) t
unfolding okays_for
Inv-Spends {es} {s} {t} e h k = record {
  next_le = omega (arith, k.next, h.next_le);
  streams_below = λ l q. k.gone l (h.streams_below l (omega (arith, k.next)));
  sent_below = λ l q.
      k.quiet l (h.streams_below l (omega (arith, k.next)))
      ∙ h.sent_below l (omega (arith, k.next));
  credit = λ l. omega (arith, k.load_le l, h.credit l);
  all_told = λ l q. k.still_told l (h.all_told l (λ n. q (k.gone l n)));
  order = k.announced h.all_told h.order;
  allowed = subst AllAllowed (sym k.asked) h.allowed;
}

-- The client's acknowledgement gives one permit.
granted :
    {es : List Event} {s : Session} (local : ℕ) (t : Stream)
    → lookup local s.streams ≡ some t
    → Inv es s
    → Inv (okays local ∷ es) (put local (record t { permits = t.permits + 1 }) s)
unfolding okays_for
granted {es} {s} local t there h = record {
  next_le = omega (arith, h.next_le);
  streams_below = λ l b.
      elim (look-insert local l (record t { permits = t.permits + 1 }) s.streams) [
        | inl (e, i) ↦
            ground
              (arith, there, subst (λ n. lookup n s.streams ≡ none) (sym e) (h.streams_below l b))
        | inr (e, i) ↦ i ∙ h.streams_below l b
      ];
  sent_below = h.sent_below;
  credit = λ l. elim (look-insert local l (record t { permits = t.permits + 1 }) s.streams) [
    | inl (e, i) ↦
        let here : lookup l s.streams ≡ some t = subst (λ n. lookup n s.streams ≡ some t) e there in
        ground (arith, ap permits_of i, ap permits_of here, h.credit l, e)
    | inr (e, i) ↦ ground (arith, ap permits_of i, h.credit l, e)
  ];
  all_told = λ l q. elim (look-insert local l (record t { permits = t.permits + 1 }) s.streams) [
    | inl (e, i) ↦
        h.all_told l (λ n. ground (arith, n, subst (λ n. lookup n s.streams ≡ some t) e there))
    | inr (e, i) ↦ h.all_told l (λ n. q (i ∙ n))
  ];
  order = h.order;
  allowed = h.allowed;
}

Inv-if :
    {es : List Event} (c : Bool) (s t : Session) → Inv es s → Inv es t → Inv es (if c then s else t)
Inv-if true s t h k = h
Inv-if false s t h k = k

on_okay-Inv :
    {es : List Event} {s : Session} (local : ℕ)
    → Inv es s
    → Inv (okays local ∷ es) (on_okay local s)
unfolding on_okay
on_okay-Inv {es} {s} local h = elim (Option-cases (lookup local s.streams)) [
  | inl q ↦ rw (q, on_okay) (Inv-Spends (okays local) h (Spends-refl s))
  | inr (t, q) ↦
      rw (q, on_okay)
        (Inv-if t.listed (put local (record t { permits = t.permits + 1 }) s) s
          (granted local t q h) (Inv-Spends (okays local) h (Spends-refl s)))
]

Inv-start : (m : ℕ) → Inv [] (start m)
unfolding start wrtes lookup Announced AllAllowed
Inv-start m = record {
  next_le = omega arith;
  streams_below = λ l q. refl;
  sent_below = λ l q. refl;
  credit = λ l. omega arith;
  all_told = λ l q. absurd (q refl);
  order = tt;
  allowed = tt;
}

-- A session whose own number grows by one, with a stream of that number or none.
record Takes (s t : Session) : Type 0 where
  next : t.next_id ≡ s.next_id + 1
  others : (l : ℕ) → l ≢ s.next_id → lookup l t.streams ≡ lookup l s.streams
  writes_elsewhere : (l : ℕ) → l ≢ s.next_id → wrtes l t.sent ≡ wrtes l s.sent
  told_on : (l : ℕ) → told l s.sent ≡ true → told l t.sent ≡ true
  told_new :
      lookup s.next_id s.streams ≡ none
      → lookup s.next_id t.streams ≢ none
      → told s.next_id t.sent ≡ true
  announced_on : Announced s.sent → Announced t.sent
  asked_on : t.asked ≡ s.asked
  load_new : wrtes s.next_id s.sent ≡ 0 → lookup s.next_id s.streams ≡ none → load s.next_id t ≤ 1

Inv-Takes : {es : List Event} {s t : Session} (e : Event) → Inv es s → Takes s t → Inv (e ∷ es) t
unfolding okays_for
Inv-Takes {es} {s} {t} e h k = record {
  next_le = omega (arith, k.next, h.next_le);
  streams_below =
      λ l q. k.others l (omega (arith, k.next)) ∙ h.streams_below l (omega (arith, k.next));
  sent_below =
      λ l q. k.writes_elsewhere l (omega (arith, k.next)) ∙ h.sent_below l (omega (arith, k.next));
  credit = λ l. elim (Bool-cases (l == s.next_id)) [
    | inl c ↦
        let new : load s.next_id t ≤ 1 =
          k.load_new (h.sent_below s.next_id (omega arith))
            (h.streams_below s.next_id (omega arith)) in
        let d : load l t ≤ 1 = subst (λ n. load n t ≤ 1) (ground (arith, c)) new in omega (arith, d)
    | inr c ↦
        let d : l ≢ s.next_id = ground (arith, c) in
        omega (arith, k.writes_elsewhere l d, ap permits_of (k.others l d), h.credit l)
  ];
  all_told = λ l q. elim (Bool-cases (l == s.next_id)) [
    | inl c ↦
        let d : s.next_id ≡ l = ground (arith, c) in
        subst (λ n. told n t.sent ≡ true) d
          (k.told_new (h.streams_below s.next_id (omega arith))
            (subst (λ n. lookup n t.streams ≢ none) (sym d) q))
    | inr c ↦ k.told_on l (h.all_told l (λ n. q (k.others l (ground (arith, c)) ∙ n)))
  ];
  order = k.announced_on h.order;
  allowed = subst AllAllowed (sym k.asked_on) h.allowed;
}

module _ (s : Session) (room : s.next_id + 1 < u32_mod) where
  wraps_not : (s.next_id + 1) % u32_mod ≡ s.next_id + 1
  wraps_not = omega arith

  refuse-Takes : (w : Bool) (remote : ℕ) (message : Bytes) → Takes s (refuse w remote message s)
  unfolding refuse wrtes told Announced
  refuse-Takes true remote message = record {
    next = wraps_not;
    others = λ l h. refl;
    writes_elsewhere = λ l h. ground (arith, h);
    told_on = λ l h. ground (arith, h);
    told_new = λ q h. absurd (h q);
    announced_on = λ h. (inr (inr (ground arith)), (inr (inr (ground arith)), (inl refl, h)));
    asked_on = refl;
    load_new = λ q h. ground (arith, q, ap permits_of h);
  }
  refuse-Takes false remote message = record {
    next = wraps_not;
    others = λ l h. refl;
    writes_elsewhere = λ l h. refl;
    told_on = λ l h. h;
    told_new = λ q h. absurd (h q);
    announced_on = λ h. h;
    asked_on = refl;
    load_new = λ q h. omega (arith, q, ap permits_of h);
  }

  nothing_opened :
      (w : Bool) (m : Message)
      → is_wrte m.command ≡ false
      → m.arg0 ≡ 0
      → Takes s (send w m (take_id s))
  unfolding wrtes told Announced
  nothing_opened true m e z = record {
    next = wraps_not;
    others = λ l h. refl;
    writes_elsewhere = λ l h. rw e (omega arith);
    told_on = λ l h. ground (arith, h);
    told_new = λ q h. absurd (h q);
    announced_on = λ h. (inr (inl z), h);
    asked_on = refl;
    load_new = λ q h. rw e (omega (arith, q, ap permits_of h));
  }
  nothing_opened false m e z = record {
    next = wraps_not;
    others = λ l h. refl;
    writes_elsewhere = λ l h. refl;
    told_on = λ l h. h;
    told_new = λ q h. absurd (h q);
    announced_on = λ h. h;
    asked_on = refl;
    load_new = λ q h. omega (arith, q, ap permits_of h);
  }

  open_stream-Takes : (opens w : Bool) (remote : ℕ) → Takes s (open_stream opens w remote s)
  unfolding open_stream wrtes told Announced
  open_stream-Takes true true remote = record {
    next = wraps_not;
    others = λ l h. elim (look-insert s.next_id l (opened remote) s.streams) [
      | inl (e, i) ↦ ground (arith, e, h)
      | inr (e, i) ↦ i
    ];
    writes_elsewhere = λ l h. omega arith;
    told_on = λ l h. ground (arith, h);
    told_new = λ q h. ground arith;
    announced_on = λ h. (inl refl, h);
    asked_on = refl;
    load_new = λ q h. elim (look-insert s.next_id s.next_id (opened remote) s.streams) [
      | inl (e, i) ↦ omega (arith, q, ap permits_of i)
      | inr (e, i) ↦ absurd (e refl)
    ];
  }
  open_stream-Takes true false remote = nothing_opened false (empty okay 0 0) refl refl
  open_stream-Takes false w remote = nothing_opened w (empty clse 0 remote) refl refl

-- A service that is asked for is no refused one; how often somebody was there does not matter.
aside :
    {es : List Event} {s : Session} (asked : List Text) (n : ℕ)
    → AllAllowed asked
    → Inv es s
    → Inv es (record s { asked = asked; activities = n })
aside asked n a h = record {
  next_le = h.next_le;
  streams_below = h.streams_below;
  sent_below = h.sent_below;
  credit = h.credit;
  all_told = h.all_told;
  order = h.order;
  allowed = a;
}

on_open-Inv :
    {es : List Event} {s : Session} (remote : ℕ) (service : Text) (device w : Bool)
    → length es + 2 < u32_mod
    → Inv es s
    → Inv (opens remote service device w ∷ es) (on_open remote service device w s)
unfolding on_open AllAllowed
on_open-Inv {es} {s} remote service device w room h =
    let e : Event = opens remote service device w in
    let n : ℕ = s.activities + 1 in
    elim (Option-cases (refused service)) [
      | inl q ↦
          rw (q, on_open)
            (Inv-Takes e (aside (service ∷ s.asked) n (q, h.allowed) h) (
              open_stream-Takes (record s { asked = service ∷ s.asked; activities = n })
                (omega (arith, h.next_le)) device w remote))
      | inr (name, q) ↦
          rw (q, on_open)
            (Inv-Takes e (aside s.asked n h.allowed h)
              (refuse-Takes (active s) (omega (arith, h.next_le)) w remote (refusal name)))
    ]

-- What an event leads to, where it can happen.
step-Inv :
    {es : List Event} {s : Session} (e : Event)
    → length es + 2 < u32_mod
    → Inv es s
    → Holds (Inv (e ∷ es)) (step s e)
unfolding step
step-Inv (opens remote service device w) room h = on_open-Inv remote service device w room h
step-Inv {es} {s} (writes local payload) room h =
    Holds-map (Spends s) (Inv (writes local payload ∷ es))
      (λ t k. Inv-Spends (writes local payload) h k) (on_write local payload s)
      (on_write-Spends s local payload)
step-Inv (okays local) room h = on_okay-Inv local h
step-Inv {es} {s} (closes local) room h = Inv-Spends (closes local) h (on_close-Spends s local)
step-Inv {es} {s} ignored room h = Inv-Spends ignored h (Spends-refl s)
step-Inv {es} {s} hangs_up room h = Inv-Spends hangs_up h (close_all-Spends s)
step-Inv {es} {s} (pumps local k) room h =
    Holds-map (Spends s) (Inv (pumps local k ∷ es)) (λ t q. Inv-Spends (pumps local k) h q)
      (pump local k s) (pump-Spends s local k)

Reach-Inv :
    {m : ℕ} {es : List Event} {s : Session} → length es + 1 < u32_mod → Reach m es s → Inv es s
Reach-Inv {m} room begin = Inv-start m
Reach-Inv room (later {es} e r q) =
    subst (Holds (Inv (e ∷ es))) q
      (step-Inv e (omega (arith, room)) (Reach-Inv (omega (arith, room)) r))

-- In every session of fewer than 2^32 - 1 events, however the streams interleave, the writes that went
-- to the client on a stream are at most one more than its acknowledgements for that stream.
pub wrtes-Reach :
    {m : ℕ} {es : List Event} {s : Session} (l : ℕ)
    → length es + 1 < u32_mod
    → Reach m es s
    → wrtes l s.sent ≤ 1 + okays_for l es
wrtes-Reach l room r = omega (arith, (Reach-Inv room r).credit l)

-- In every session of fewer than 2^32 - 1 events, where the messages of a refusal all go out or none
-- does: each message to the client is an OKAY, or of no stream, or of one that an OKAY has told it of
-- before, so that no service speaks ahead of its stream.
pub Announced-Reach :
    {m : ℕ} {es : List Event} {s : Session}
    → length es + 1 < u32_mod
    → Reach m es s
    → Announced s.sent
Announced-Reach room r = (Reach-Inv room r).order

-- In every session of fewer than 2^32 - 1 events, the device was asked for no service that is refused.
AllAllowed-Reach :
    {m : ℕ} {es : List Event} {s : Session}
    → length es + 1 < u32_mod
    → Reach m es s
    → AllAllowed s.asked
AllAllowed-Reach room r = (Reach-Inv room r).allowed
