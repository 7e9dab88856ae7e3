-- ===== src/Chat/Hub/Places.antt =====
-- Elements at a place of a changed list, and the places of the jobs that tool events begin.
use mathlib.Core.Path.{subst}
use freysa_spark_hackathon.Common.{
  ◌≡◌, ◌≢◌, refl, ℕ, zero, suc, ◌+◌, ◌≤◌, ◌<◌, false, Option, none, some, List, [], ◌∷◌, ◌++◌, map,
  String, get_elem?, All, is_truthy, arith, Bool-cases, inl, inr,
}
use freysa_spark_hackathon.Chat.Subscriptions.{ToolEvent, tool_map_key}
use freysa_spark_hackathon.Chat.Hub.{
  Subscriber, Job, ending, place, modify, start_jobs, end_job, end_jobs,
}

module _ {ℓ} {A : Type ℓ} where
  pub get_elem?-map :
      {B : Type ℓ} (f : A → B) (xs : List A) (i : ℕ) {x : A}
      → get_elem? xs i ≡ some x
      → get_elem? (map f xs) i ≡ some (f x)
  get_elem?-map f [] i e = cc
  get_elem?-map f (y ∷ xs) zero e = cc
  get_elem?-map f (y ∷ xs) (suc i) e = get_elem?-map f xs i e

  pub get_elem?-append_left :
      (xs ys : List A) (i : ℕ) {x : A} → get_elem? xs i ≡ some x → get_elem? (xs ++ ys) i ≡ some x
  get_elem?-append_left [] ys i e = cc
  get_elem?-append_left (y ∷ xs) ys zero e = e
  get_elem?-append_left (y ∷ xs) ys (suc i) e = get_elem?-append_left xs ys i e

  pub get_elem?-modify :
      (xs : List A) (i : ℕ) (f : A → A) {x : A}
      → get_elem? xs i ≡ some x
      → get_elem? (modify xs i f) i ≡ some (f x)
  get_elem?-modify [] i f e = cc
  get_elem?-modify (y ∷ xs) zero f e = cc
  get_elem?-modify (y ∷ xs) (suc i) f e = get_elem?-modify xs i f e

  pub get_elem?-modify_other :
      (xs : List A) (j i : ℕ) (f : A → A) → j ≢ i → get_elem? (modify xs j f) i ≡ get_elem? xs i
  get_elem?-modify_other [] j i f n = refl
  get_elem?-modify_other (y ∷ xs) zero zero f n = absurd (n refl)
  get_elem?-modify_other (y ∷ xs) zero (suc i) f n = refl
  get_elem?-modify_other (y ∷ xs) (suc j) zero f n = refl
  get_elem?-modify_other (y ∷ xs) (suc j) (suc i) f n =
      get_elem?-modify_other xs j i f (λ e. n (cc))

  pub All-append_parts : (P : A → Type ℓ) (xs ys : List A) → All P xs → All P ys → All P (xs ++ ys)
  All-append_parts P [] ys h g = g
  All-append_parts P (x ∷ xs) ys (p, h) g = (p, All-append_parts P xs ys h g)

  pub All-without :
      (P : A → Type ℓ) (xs : List A) (x : A) (ys : List A)
      → All P (xs ++ (x ∷ ys))
      → P x × All P (xs ++ ys)
  All-without P [] x ys (p, h) = (p, h)
  All-without P (y ∷ xs) x ys (p, h) = let (q, g) = All-without P xs x ys h in (q, (p, g))

-- No job belongs to the subscription at a place.
abbrev pub NoJob : ℕ → List Job → Type 0
NoJob i jobs = All (λ (j : Job). place j ≢ i) jobs

abbrev NoneBelow : ℕ → List Job → Type 0
NoneBelow k jobs = All (λ (j : Job). k ≤ place j) jobs

-- A list of jobs in which the place of each is at least as great as that of the first.
All-later : {k : ℕ} {i : ℕ} (jobs : List Job) → i < k → NoneBelow k jobs → NoJob i jobs
All-later [] lt h = tt
All-later (j ∷ jobs) lt (h, hs) = ((λ e. absurd (omega (arith, e))), All-later jobs lt hs)

NoneBelow-suc : (k : ℕ) (jobs : List Job) → NoneBelow (suc k) jobs → NoneBelow k jobs
NoneBelow-suc k [] h = tt
NoneBelow-suc k (j ∷ jobs) (h, hs) = (omega arith, NoneBelow-suc k jobs hs)

start_jobs-NoneBelow :
    (name : String) (k : ℕ) (ss : List Subscriber) → NoneBelow k (start_jobs name k ss)
unfolding start_jobs
start_jobs-NoneBelow name k [] = tt
start_jobs-NoneBelow name k (s ∷ ss) =
    let rest = NoneBelow-suc k _ (start_jobs-NoneBelow name (suc k) ss) in
    elim (Bool-cases s.listening) [ inl l ↦ rw l (omega arith, rest) | inr l ↦ rw l rest ]

pub start_jobs-NoJob :
    (name : String) (k n : ℕ) (ss : List Subscriber) {s : Subscriber}
    → get_elem? ss n ≡ some s
    → s.listening ≡ false
    → NoJob (k + n) (start_jobs name k ss)
unfolding start_jobs
start_jobs-NoJob name k n [] e l = cc
start_jobs-NoJob name k zero (t ∷ ss) e l =
    let quiet : t.listening ≡ false = cc in
    rw quiet (All-later _ (omega arith) (start_jobs-NoneBelow name (suc k) ss))
start_jobs-NoJob name k (suc n) (t ∷ ss) e l =
    let same : suc k + n ≡ k + suc n = omega arith in
    let rest =
      subst (λ i. NoJob i (start_jobs name (suc k) ss)) same
        (start_jobs-NoJob name (suc k) n ss e l) in
    elim (Bool-cases t.listening) [
      | inl h ↦ rw h ((λ e. absurd (omega (arith, e))), rest)
      | inr h ↦ rw h rest
    ]

end_job-All :
    (P : Job → Type 0) (event : ToolEvent) (k : ℕ) (chat_id : String) (o : Option String)
    (rest : List Job)
    → ((id : String) → P (ending k chat_id event id))
    → All P rest
    → All P (end_job event k chat_id o rest)
end_job-All P event k chat_id none rest p h = h
end_job-All P event k chat_id (some id) rest p h = elim (Bool-cases (is_truthy id)) [
  | inl t ↦ rw t (p id, h)
  | inr t ↦ rw t h
]

end_jobs-NoneBelow :
    (messages : String → Option String) (event : ToolEvent) (k : ℕ) (ss : List Subscriber)
    → NoneBelow k (end_jobs messages event k ss)
unfolding end_jobs
end_jobs-NoneBelow messages event k [] = tt
end_jobs-NoneBelow messages event k (s ∷ ss) =
    let rest = NoneBelow-suc k _ (end_jobs-NoneBelow messages event (suc k) ss) in
    elim (Bool-cases s.listening) [
      | inl l ↦ rw l (
          end_job-All (λ j. k ≤ place j) event k s.chat_id
            (messages (tool_map_key s.chat_id event.tool_name)) _ (λ id. omega arith) rest)
      | inr l ↦ rw l rest
    ]

pub end_jobs-NoJob :
    (messages : String → Option String) (event : ToolEvent) (k n : ℕ) (ss : List Subscriber)
    {s : Subscriber}
    → get_elem? ss n ≡ some s
    → s.listening ≡ false
    → NoJob (k + n) (end_jobs messages event k ss)
unfolding end_jobs
end_jobs-NoJob messages event k n [] e l = cc
end_jobs-NoJob messages event k zero (t ∷ ss) e l =
    let quiet : t.listening ≡ false = cc in
    rw quiet (All-later _ (omega arith) (end_jobs-NoneBelow messages event (suc k) ss))
end_jobs-NoJob messages event k (suc n) (t ∷ ss) e l =
    let same : suc k + n ≡ k + suc n = omega arith in
    let rest =
      subst (λ i. NoJob i (end_jobs messages event (suc k) ss)) same
        (end_jobs-NoJob messages event (suc k) n ss e l) in
    elim (Bool-cases t.listening) [
      | inl h ↦ rw h (
          end_job-All (λ j. place j ≢ k + suc n) event k t.chat_id
            (messages (tool_map_key t.chat_id event.tool_name)) _
            (λ id e. absurd (omega (arith, e))) rest)
      | inr h ↦ rw h rest
    ]
