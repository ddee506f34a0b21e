-- ===== src/Embedding/Complete.antt =====
-- With a service that answers, every job of a filing gets its point.
use ko_finance.Common.{
  All-append, All-imply, ℕ, zero, suc, ◌+◌, ◌<◌, Text, length, drop, map, Dict, lookup, insert,
  lookup-insert, lookup-insert_self, nat_keys, Json, Fields, some, List, [], ◌∷◌, ◌≡◌, refl, sym,
  ap, ◌∙◌, arith, ltb, ◌==◌, true, Bool-cases, inl, inr, length-append, All,
}
use mathlib.Core.Path.{subst}
use ko_finance.Embedding.{
  Job, Reply, embedded, context_exceeded, failed, Progress, Next, goes_on, raises, Result, ended,
  raised, out_of_fuel, Point, take, assign, points_of, clip, exceeded, assigned, replied, round,
  embed_jobs, weight, start, make_jobs, collected, store_chunk_vectors,
}
use ko_finance.Embedding.Ends.{Lowers, Steps, round-Lowers, embed_jobs_rule}

abbrev Long : List Text → Type 0
Long [] = ⊥
Long (t ∷ []) = 1024 < length t
Long (t ∷ u ∷ ts) = Unit

abbrev pub IsAnswer : {V : Type 0} → List Text → Reply V → Type 0
IsAnswer ts (embedded vs) = length vs ≡ length ts
IsAnswer ts context_exceeded = Long ts
IsAnswer ts failed = ⊥

-- A service that answers, as the embedding APIs document it: a call returns a vector for each text, or
-- it says that the texts exceed its context, but not of one text of at most 1024 characters.
abbrev pub Answers : {V : Type 0} → (ℕ → List Text → Reply V) → Type 0
Answers embed = (call : ℕ) (ts : List Text) → IsAnswer ts (embed call ts)

length_parts : (n : ℕ) (xs : List Job) → length (take n xs) + length (drop n xs) ≡ length xs
length_parts zero xs = omega arith
length_parts (suc n) [] = omega arith
length_parts (suc n) (x ∷ xs) = omega (arith, length_parts n xs)

length-texts : (jobs : List Job) → length (map (λ (j : Job). j.text) jobs) ≡ length jobs
length-texts [] = refl
length-texts (j ∷ jobs) = omega (arith, length-texts jobs)

-- A batch of one job, when it is too long for the context.
one_over :
    (k : ℕ) (job : Job) (rest : List Job)
    → (length (take k (job ∷ rest)) == 1) ≡ true
    → Long (map (λ (j : Job). j.text) (take k (job ∷ rest)))
    → 1024 < length job.text
one_over zero job rest one long = absurd long
one_over (suc k) job rest one long = alone (take k rest) one long
  where
    alone :
        (jobs : List Job)
        → (suc (length jobs) == 1) ≡ true
        → Long (map (λ (j : Job). j.text) (job ∷ jobs))
        → 1024 < length job.text
    alone [] h l = l
    alone (j ∷ js) h l = absurd (ground (arith, h))

module _ {V : Type 0} where
  abbrev Has : Dict ℕ V → Job → Type 0
  Has d j = (v : V) × (lookup j.index d ≡ some v)

  Has-insert : (k : ℕ) (v : V) (d : Dict ℕ V) (j : Job) → Has d j → Has (insert k v d) j
  Has-insert k v d j (w, h) = elim (Bool-cases (nat_keys.same k j.index)) [
    | inl e ↦ (v, lookup-insert k j.index v d ∙ rw e refl)
    | inr e ↦ (w, lookup-insert k j.index v d ∙ rw e h)
  ]

  -- A vector for each job is assigned to each, and no other is lost.
  assign-Has :
      (jobs : List Job) (vs : List V) (d : Dict ℕ V)
      → length vs ≡ length jobs
      → (new : Dict ℕ V) × (assign jobs vs d ≡ some new)
        × ((j : Job) → Has d j → Has new j)
        × All (Has new) jobs
  unfolding assign
  assign-Has [] [] d h = (d, refl, (λ j k. k), tt)
  assign-Has [] (v ∷ vs) d h = absurd (omega (arith, h))
  assign-Has (j ∷ jobs) [] d h = absurd (omega (arith, h))
  assign-Has (j ∷ jobs) (v ∷ vs) d h =
      let (new, e, kept, all) = assign-Has jobs vs (insert j.index v d) (omega (arith, h)) in
      (
        new,
        e,
        (λ i k. kept i (Has-insert j.index v d i k)),
        (kept j (v, lookup-insert_self j.index v d), all),
      )

  length-points_of :
      (filing : Text) (metadata : Fields) (chunks : List Fields) (d : Dict ℕ V) (jobs : List Job)
      → All (Has d) jobs
      → length (points_of filing metadata chunks d jobs) ≡ length jobs
  unfolding points_of
  length-points_of filing metadata chunks d [] h = refl
  length-points_of filing metadata chunks d (j ∷ jobs) ((v, e), h) =
      rw (points_of, e) (ap suc (length-points_of filing metadata chunks d jobs h))

module _ {V : Type 0} (embed : ℕ → List Text → Reply V) (size : ℕ) where
  -- The jobs before the cursor have vectors, and no job is lost of `n`.
  abbrev Covers : ℕ → Progress V → Type 0
  Covers n p = (0 < p.batch) × All (Has p.vectors) p.done × (length p.done + length p.left ≡ n)

  abbrev Goes : ℕ → Next V → Type 0
  Goes n raises = ⊥
  Goes n (goes_on q) = Covers n q

  abbrev Covered : ℕ → Result (Progress V) → Type 0
  Covered n (ended p) = All (Has p.vectors) p.done × (length p.done ≡ n)
  Covered n r = ⊥

  clip-Goes :
      (n : ℕ) (p : Progress V) (job : Job) (rest : List Job)
      → p.left ≡ job ∷ rest
      → Covers n p
      → 1024 < length job.text
      → Goes n (clip embed size p job rest)
  clip-Goes n p job rest e (h, all, count) long =
      let f : ltb 1024 (length job.text) ≡ true = ground (arith, long) in
      rw f (h, all, ap (λ (jobs : List Job). length p.done + length jobs) (sym e) ∙ count)

  exceeded-Goes :
      (n : ℕ) (p : Progress V) (job : Job) (rest : List Job)
      → p.left ≡ job ∷ rest
      → Covers n p
      → Long (map (λ (j : Job). j.text) (take p.batch (job ∷ rest)))
      → Goes n (exceeded embed size p (job ∷ rest))
  exceeded-Goes n p job rest e c long =
      elim (Bool-cases (length (take p.batch (job ∷ rest)) == 1)) [
        | inl f ↦ rw f (clip-Goes n p job rest e c (one_over p.batch job rest f long))
        | inr f ↦ rw f (ground arith, c.1, c.2)
      ]

  embedded-Goes :
      (n : ℕ) (p : Progress V) (vs : List V)
      → 0 < size
      → Covers n p
      → length vs ≡ length (take p.batch p.left)
      → Goes n (assigned embed size p (assign (take p.batch p.left) vs p.vectors))
  embedded-Goes n p vs positive (h, all, count) same =
      let (new, e, kept, fresh) = assign-Has (take p.batch p.left) vs p.vectors same in
      rw e (
        positive,
        All-append (Has new) p.done (take p.batch p.left)
            (All-imply (Has p.vectors) (Has new) p.done kept all) fresh,
        omega
            (arith, count, length-append p.done (take p.batch p.left), length_parts p.batch p.left),
      )

  round-Goes :
      (n : ℕ) (p : Progress V) (job : Job) (rest : List Job)
      → Answers embed
      → 0 < size
      → p.left ≡ job ∷ rest
      → Covers n p
      → Goes n (round embed size p)
  unfolding round
  round-Goes n p job rest answers positive e c =
      by_reply (embed p.calls texts) (answers p.calls texts)
    where
      texts : List Text
      texts = map (λ (j : Job). j.text) (take p.batch p.left)

      by_reply : (reply : Reply V) → IsAnswer texts reply → Goes n (replied embed size p reply)
      by_reply (embedded vs) a =
          embedded-Goes n p vs positive c (a ∙ length-texts (take p.batch p.left))
      by_reply context_exceeded a =
          subst (λ (jobs : List Job). Goes n (exceeded embed size p jobs)) (sym e)
            (exceeded-Goes n p job rest e c (
              subst (λ (jobs : List Job). Long (map (λ (j : Job). j.text) (take p.batch jobs))) e
                a))
      by_reply failed a = absurd a

  -- Every job gets its point: with a service that answers, as its interface documents it, and a
  -- positive batch size, `store_chunk_vectors` does not raise, and it stores as many points as the
  -- chunks have jobs.
  pub store_chunk_vectors_complete :
      (show : Json → Text) (most : ℕ) (filing : Text) (chunks : List Fields) (metadata : Fields)
      → Answers embed
      → 0 < size
      → (points : List (Point V)) × (store_chunk_vectors embed size show most filing chunks metadata
          ≡ ended points)
        × (length points ≡ length (make_jobs show most 0 chunks))
  unfolding store_chunk_vectors
  store_chunk_vectors_complete show most filing chunks metadata answers positive =
      let n = length jobs in
      of_run (embed_jobs embed size (suc (weight size jobs + size)) (start embed size jobs)) (
        embed_jobs_rule embed size (Covers n) (Covered n) last
          (λ p job rest e c.
            step n p (round embed size p) (round-Lowers embed size p job rest e c.0 positive)
              (round-Goes n p job rest answers positive e c))
          (suc (weight size jobs + size)) (start embed size jobs) (omega arith)
          (positive, tt, omega arith))
    where
      jobs : List Job
      jobs = make_jobs show most 0 chunks

      last :
          (p : Progress V) → p.left ≡ [] → Covers (length jobs) p → Covered (length jobs) (ended p)
      last p e (h, all, count) = (all, ground (arith, count, ap (λ (js : List Job). length js) e))

      step :
          (n : ℕ) (p : Progress V) (next : Next V)
          → Lowers embed size p next
          → Goes n next
          → Steps embed size (Covers n) (Covered n) p next
      step n p raises l g = absurd g
      step n p (goes_on q) l g = (l.0, g)

      of_run :
          (r : Result (Progress V))
          → Covered (length jobs) r
          → (points : List (Point V)) × (collected embed size filing metadata chunks r
              ≡ ended points)
            × (length points ≡ length jobs)
      of_run (ended p) (all, count) =
          (_, refl, length-points_of filing metadata chunks p.vectors p.done all ∙ count)
      of_run raised h = absurd h
      of_run out_of_fuel h = absurd h
