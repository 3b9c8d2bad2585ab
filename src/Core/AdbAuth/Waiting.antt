-- ===== src/Core/AdbAuth/Waiting.antt =====
-- What a waiter comes back with, and that none is left behind.
use yard.Prelude.{
  ◌≡◌, refl, ap, ◌∙◌, true, Option, none, some, List, [], ◌∷◌, ◌++◌, Text, text_eq, text_eq_iff,
  text_key, arith, Option-cases, Bool-cases, subst, ℕ, inl, inr, ◌⊎◌,
}
use yard.Prelude.Dict.{lookup, insert, remove}
use yard.Core.AdbAuth.{
  Authority, AdbAuthDecision, Parked, Event, approves, resolves, abandons, resumes, times_out,
  notes_activity, new, approve, deny, resolve, abandon_all, all_dropped, conclude, resume, time_out,
  note_activity, step, run, outcome_of,
}

-- The coordinator's answers among the events.
abbrev pub AnsweredIn : AdbAuthDecision → List Event → Type 0
AnsweredIn d [] = ⊥
AnsweredIn d (resolves e ∷ es) = (e ≡ d) ⊎ AnsweredIn d es
AnsweredIn d (approves r f k c ∷ es) = AnsweredIn d es
AnsweredIn d (abandons ∷ es) = AnsweredIn d es
AnsweredIn d (resumes r ∷ es) = AnsweredIn d es
AnsweredIn d (times_out r ∷ es) = AnsweredIn d es
AnsweredIn d (notes_activity n t ∷ es) = AnsweredIn d es

abbrev Answers : Type 0
Answers = List (Text × (Parked × Option AdbAuthDecision))

module _ (P : AdbAuthDecision → Type 0) where
  abbrev Fits : Text → Option AdbAuthDecision → Type 0
  Fits id none = Unit {0}
  Fits id (some d) = (d.request_id ≡ id) × P d

  abbrev AllFit : Answers → Type 0
  AllFit [] = Unit {0}
  AllFit ((id, (p, o)) ∷ m) = Fits id o × AllFit m

  insert-AllFit :
      (id : Text) (p : Parked) (o : Option AdbAuthDecision) (m : Answers)
      → Fits id o
      → AllFit m
      → AllFit (insert id (p, o) m)
  unfolding insert
  insert-AllFit id p o [] f h = (f, tt)
  insert-AllFit id p o ((j, (q, r)) ∷ m) f h = ground (arith, insert-AllFit id p o m f)

  remove-AllFit : (id : Text) (m : Answers) → AllFit m → AllFit (remove id m)
  unfolding remove
  remove-AllFit id [] h = tt
  remove-AllFit id ((j, (q, r)) ∷ m) h = ground (arith, remove-AllFit id m)

  all_dropped-AllFit :
      (ps : List (Text × Parked)) (m : Answers) → AllFit m → AllFit (all_dropped ps ++ m)
  all_dropped-AllFit [] m h = h
  all_dropped-AllFit ((id, p) ∷ ps) m h = (tt, all_dropped-AllFit ps m h)

  lookup-AllFit :
      (id : Text) (m : Answers) (p : Parked) (o : Option AdbAuthDecision)
      → lookup id m ≡ some (p, o)
      → AllFit m
      → Fits id o
  unfolding lookup
  lookup-AllFit id [] p o e h = absurd (ground arith)
  lookup-AllFit id ((j, (q, r)) ∷ m) p o e h = elim (Bool-cases (text_eq j id)) [
    | inl same ↦
        let ro : r ≡ o = ground arith in
        subst (Fits id) ro (subst (λ k. Fits k r) ((text_eq_iff j id).0 same) h.0)
    | inr other ↦ lookup-AllFit id m p o (ground arith) h.1
  ]

answers-approve :
    (r f k : Text) (c : Option Text) (a : Authority) → (approve r f k c a).1.answers ≡ a.answers
unfolding approve
answers-approve r f k c a = ground arith

answers-conclude :
    (f : Text) (o : Option AdbAuthDecision) (a : Authority)
    → (conclude f (outcome_of o) a).1.answers ≡ a.answers
unfolding conclude deny
answers-conclude f none a = refl
answers-conclude f (some d) a = ground arith

answers-time_out : (r : Text) (a : Authority) → (time_out r a).1.answers ≡ a.answers
unfolding time_out conclude
answers-time_out r a = ground arith

answers-note_activity : (now at : ℕ) (a : Authority) → (note_activity now at a).answers ≡ a.answers
unfolding note_activity
answers-note_activity now at a = ground arith

module _ (P : AdbAuthDecision → Type 0) where
  resume-AllFit : (r : Text) (a : Authority) → AllFit P a.answers → AllFit P (resume r a).1.answers
  unfolding resume
  resume-AllFit r a h = elim (Option-cases (lookup r a.answers)) [
    | inl e ↦ rw (e, resume) h
    | inr ((p, o), e) ↦
        rw (e, resume, answers-conclude p.fingerprint o) (remove-AllFit P r a.answers h)
  ]

  resolve-AllFit :
      (d : AdbAuthDecision) (a : Authority)
      → P d
      → AllFit P a.answers
      → AllFit P (resolve d a).answers
  unfolding resolve
  resolve-AllFit d a k h = elim (Option-cases (lookup d.request_id a.pending)) [
    | inl e ↦ rw (e, resolve) h
    | inr (p, e) ↦ rw (e, resolve) (insert-AllFit P d.request_id p (some d) a.answers (refl, k) h)
  ]

  -- With every answer among the events known to satisfy `P`, so is every answer that is delivered.
  run-AllFit :
      (es : List Event) (a : Authority)
      → ((d : AdbAuthDecision) → AnsweredIn d es → P d)
      → AllFit P a.answers
      → AllFit P (run a es).answers
  unfolding run step abandon_all
  run-AllFit [] a k h = h
  run-AllFit (approves r f key c ∷ es) a k h =
      run-AllFit es _ k (rw (answers-approve r f key c a) h)
  run-AllFit (resolves d ∷ es) a k h =
      run-AllFit es _ (λ e i. k e (inr i)) (resolve-AllFit d a (k d (inl refl)) h)
  run-AllFit (abandons ∷ es) a k h = run-AllFit es _ k (all_dropped-AllFit P a.pending a.answers h)
  run-AllFit (resumes r ∷ es) a k h = run-AllFit es _ k (resume-AllFit r a h)
  run-AllFit (times_out r ∷ es) a k h = run-AllFit es _ k (rw (answers-time_out r a) h)
  run-AllFit (notes_activity n t ∷ es) a k h =
      run-AllFit es _ k (rw (answers-note_activity n t a) h)

resume_user :
    (request user : Text) (a : Authority) (p : Parked) (o : Option AdbAuthDecision)
    → lookup request a.answers ≡ some (p, o)
    → (resume request a).0 ≡ some user
    → (d : AdbAuthDecision) × (o ≡ some d) × (d.allow ≡ true) × (d.user_id ≡ some user)
unfolding resume conclude
resume_user request user a p none e h = let h' = rw (e, resume) at h in cc
resume_user request user a p (some d) e h = (d, refl, ground arith, ground arith)

AllFit-new : (P : AdbAuthDecision → Type 0) (device : Text) → AllFit P (new device).answers
unfolding new
AllFit-new P device = tt

-- An attempt comes back with a user only if the coordinator, at some time before, answered that
-- very request, allowed it and named that user.
pub resume_approved :
    (device : Text) (es : List Event) (request user : Text)
    → (resume request (run (new device) es)).0 ≡ some user
    → (d : AdbAuthDecision) × AnsweredIn d es
      × (d.request_id ≡ request)
      × (d.allow ≡ true)
      × (d.user_id ≡ some user)
unfolding resume
resume_approved device es request user h =
    let a = run (new device) es in
    let fits =
      run-AllFit (λ d. AnsweredIn d es) es (new device) (λ d i. i)
        (AllFit-new (λ d. AnsweredIn d es) device) in
    elim (Option-cases (lookup request a.answers)) [
      | inl e ↦ absurd (ground arith)
      | inr ((p, o), e) ↦
          let (d, some_d, allowed, named) = resume_user request user a p o e h in
          let f =
            lookup-AllFit (λ d. AnsweredIn d es) request a.answers p (some d)
              (e ∙ ap (λ o. some (p, o)) some_d) fits in
          (d, f.1, f.0, allowed, named)
    ]
