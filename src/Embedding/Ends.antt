-- ===== src/Embedding/Ends.antt =====
-- The loop of `store_chunk_vectors` ends, whatever the embedding service answers.
use ko_finance.Common.{
  ℕ, zero, suc, ◌+◌, ◌/◌, ◌≤◌, ◌<◌, max, Text, length, drop, Dict, Json, Fields, Option, none, some,
  List, [], ◌∷◌, ◌≡◌, refl, sym, arith, ltb, ◌==◌, false, Bool-cases, inl, inr, map,
}
use mathlib.Core.Path.{subst}
use ko_finance.Embedding.{
  Job, Reply, embedded, context_exceeded, failed, Progress, Next, goes_on, raises, Result, ended,
  raised, out_of_fuel, take, assign, clip, exceeded, assigned, replied, round, embed_jobs, weight,
  start, make_jobs, collected, store_chunk_vectors,
}

pub length-take {ℓ} : {A : Type ℓ} (n : ℕ) (xs : List A) → length (take n xs) ≤ n
length-take zero xs = omega arith
length-take (suc n) [] = omega arith
length-take (suc n) (x ∷ xs) = omega (arith, length-take n xs)

half_less : (n : ℕ) → 1024 < n → max 1024 (n / 2) < n
half_less n h = ground arith

weight-drop : (size n : ℕ) (jobs : List Job) → weight size (drop n jobs) ≤ weight size jobs
weight-drop size zero jobs = omega arith
weight-drop size (suc n) [] = omega arith
weight-drop size (suc n) (job ∷ jobs) = omega (arith, weight-drop size n jobs)

weight-drop_first :
    (size n : ℕ) (job : Job) (rest : List Job)
    → 0 < n
    → weight size (drop n (job ∷ rest)) + size < weight size (job ∷ rest)
weight-drop_first size zero job rest h = absurd (omega (arith, h))
weight-drop_first size (suc n) job rest h = omega (arith, weight-drop size n rest)

length-take_one :
    (n : ℕ) (job : Job) (rest : List Job)
    → 0 < n
    → (length (take n (job ∷ rest)) == 1) ≡ false
    → 1 < n
length-take_one n job rest h many = ground (arith, h, many, length-take n (job ∷ rest))

abbrev pub Ended {ℓ} : {A : Type ℓ} → Result A → Type 0
Ended out_of_fuel = ⊥
Ended r = Unit

module _ {V : Type 0} (embed : ℕ → List Text → Reply V) (size : ℕ) where
  -- What is left to do.
  abbrev pub rank : Progress V → ℕ
  rank p = weight size p.left + p.batch

  -- A round that goes on lowers the rank.
  abbrev pub Lowers : Progress V → Next V → Type 0
  Lowers p raises = Unit
  Lowers p (goes_on q) = (rank q < rank p) × (0 < q.batch)

  clip-Lowers :
      (p : Progress V) (job : Job) (rest : List Job)
      → p.left ≡ job ∷ rest
      → 0 < p.batch
      → Lowers p (clip embed size p job rest)
  clip-Lowers p job rest e h = elim (Bool-cases (ltb 1024 (length job.text))) [
    | inr f ↦ rw f tt
    | inl f ↦
        let less = half_less (length job.text) (ground (arith, f)) in
        let cut = length-take (max 1024 (length job.text / 2)) job.text in
        rw (f, e) (omega (arith, less, cut), h)
  ]

  exceeded-Lowers :
      (p : Progress V) (job : Job) (rest : List Job)
      → p.left ≡ job ∷ rest
      → 0 < p.batch
      → Lowers p (exceeded embed size p (job ∷ rest))
  exceeded-Lowers p job rest e h = elim (Bool-cases (length (take p.batch (job ∷ rest)) == 1)) [
    | inl f ↦ rw f (clip-Lowers p job rest e h)
    | inr f ↦
        let many = length-take_one p.batch job rest h f in rw f (ground (arith, many), ground arith)
  ]

  assigned-Lowers :
      (p : Progress V) (job : Job) (rest : List Job) (found : Option (Dict ℕ V))
      → p.left ≡ job ∷ rest
      → 0 < p.batch
      → 0 < size
      → Lowers p (assigned embed size p found)
  assigned-Lowers p job rest none e h positive = tt
  assigned-Lowers p job rest (some d) e h positive =
      rw e (omega (arith, weight-drop_first size p.batch job rest h), positive)

  pub round-Lowers :
      (p : Progress V) (job : Job) (rest : List Job)
      → p.left ≡ job ∷ rest
      → 0 < p.batch
      → 0 < size
      → Lowers p (round embed size p)
  unfolding round
  round-Lowers p job rest e h positive =
      by_reply (embed p.calls (map (λ (j : Job). j.text) (take p.batch p.left)))
    where
      by_reply : (reply : Reply V) → Lowers p (replied embed size p reply)
      by_reply (embedded vs) =
          assigned-Lowers p job rest (assign (take p.batch p.left) vs p.vectors) e h positive
      by_reply context_exceeded =
          subst (λ (jobs : List Job). Lowers p (exceeded embed size p jobs)) (sym e)
            (exceeded-Lowers p job rest e h)
      by_reply failed = tt

  -- A round leads to a result with `Q`, or with less to do to a state with `I`.
  abbrev pub Steps :
      (Progress V → Type 0) → (Result (Progress V) → Type 0) → Progress V → Next V → Type 0
  Steps I Q p raises = Q raised
  Steps I Q p (goes_on q) = (rank q < rank p) × I q

  -- The rule of the loop: `I` holds before each round, and `Q` of the result.
  pub embed_jobs_rule :
      (I : Progress V → Type 0) (Q : Result (Progress V) → Type 0)
      → ((p : Progress V) → p.left ≡ [] → I p → Q (ended p))
      → ((p : Progress V) (job : Job) (rest : List Job)
          → p.left ≡ job ∷ rest
          → I p
          → Steps I Q p (round embed size p))
      → (fuel : ℕ) (p : Progress V) → rank p < fuel
      → I p
      → Q (embed_jobs embed size fuel p)
  unfolding embed_jobs
  embed_jobs_rule I Q last step zero p enough h = absurd (omega (arith, enough))
  embed_jobs_rule I Q last step (suc fuel) p enough h =
      by_jobs p.left refl
        (λ q less i. embed_jobs_rule I Q last step fuel q (omega (arith, enough, less)) i)
    where
      Continues : Type 0
      Continues = (q : Progress V) → rank q < rank p → I q → Q (embed_jobs embed size fuel q)

      goes :
          (n : Next V)
          → Steps I Q p n
          → Continues
          → Q (elim n [ goes_on q ↦ embed_jobs embed size fuel q | raises ↦ raised ])
      goes raises l continues = l
      goes (goes_on q) (less, i) continues = continues q less i

      by_jobs :
          (jobs : List Job) → p.left ≡ jobs → Continues → Q (embed_jobs embed size (suc fuel) p)
      by_jobs [] e continues = rw (embed_jobs, e) (last p e h)
      by_jobs (job ∷ rest) e continues =
          rw (embed_jobs, e) (goes (round embed size p) (step p job rest e h) continues)

  -- Whatever the embedding service answers, the loop ends: it does not run out of its fuel.
  embed_jobs-Ended :
      (fuel : ℕ) (p : Progress V)
      → 0 < size
      → 0 < p.batch
      → rank p < fuel
      → Ended (embed_jobs embed size fuel p)
  embed_jobs-Ended fuel p positive h enough =
      embed_jobs_rule (λ q. 0 < q.batch) Ended (λ q e i. tt)
        (λ q job rest e i. step q (round embed size q) (round-Lowers q job rest e i positive)) fuel
        p enough h
    where
      step : (q : Progress V) (n : Next V) → Lowers q n → Steps (λ r. 0 < r.batch) Ended q n
      step q raises l = tt
      step q (goes_on r) l = l

  -- `store_chunk_vectors` ends, whatever the embedding service answers in each of its calls: with a
  -- positive batch size it has a result, or it raises what a call or an answer makes it raise.
  pub store_chunk_vectors-Ended :
      (show : Json → Text) (most : ℕ) (filing : Text) (chunks : List Fields) (metadata : Fields)
      → 0 < size
      → Ended (store_chunk_vectors embed size show most filing chunks metadata)
  unfolding store_chunk_vectors
  store_chunk_vectors-Ended show most filing chunks metadata positive =
      let jobs = make_jobs show most 0 chunks in
      let run = embed_jobs embed size (suc (weight size jobs + size)) (start embed size jobs) in
      of_run run (embed_jobs-Ended _ (start embed size jobs) positive positive (omega arith))
    where
      of_run :
          (r : Result (Progress V))
          → Ended r
          → Ended (collected embed size filing metadata chunks r)
      of_run (ended p) h = tt
      of_run raised h = tt
      of_run out_of_fuel h = absurd h
