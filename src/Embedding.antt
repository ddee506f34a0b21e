-- ===== src/Embedding.antt =====
-- `store_chunk_vectors` of services/vector_service.py: the chunks of a filing become embedding jobs, the
-- jobs are embedded in batches, and the vectors become the points that are stored.
use ko_finance.Common.{
  ℕ, zero, suc, ◌+◌, ◌/◌, max, Text, codes, nonempty, strip, length, drop, Json, null, string,
  Fields, end, field, field_of, Dict, lookup, insert, nat_keys, Option, none, some, or_default,
  Bool, true, false, List, [], ◌∷◌, ◌++◌, map, ltb, ◌==◌, if◌then◌else◌,
}
use ko_finance.JsonStore.{text_of}
use ko_finance.Payments.OrderStatus.{set_field}
pub mod Ends
pub mod Complete
mod Tests

pub record Job : Type 0 where
  pub index : ℕ
  pub text : Text

-- What `litellm.embedding` does: it returns the vectors of the texts, or it raises
-- ContextWindowExceededError, or it raises another exception.
pub data Reply (V : Type 0) : Type 0 where
  embedded : List V → Reply V
  context_exceeded : Reply V
  failed : Reply V

-- The loop's variables. The jobs before the cursor are `done`, the others `left`; `calls` counts the
-- calls of the embedding service.
pub record Progress (V : Type 0) : Type 0 where
  pub done : List Job
  pub left : List Job
  pub batch : ℕ
  pub calls : ℕ
  pub vectors : Dict ℕ V

-- What a round of the loop leads to.
pub data Next (V : Type 0) : Type 0 where
  goes_on : Progress V → Next V
  raises : Next V

pub data Result {ℓ} (A : Type ℓ) : Type ℓ where
  ended : A → Result A
  raised : Result A
  out_of_fuel : Result A

pub record Point (V : Type 0) : Type 0 where
  pub vector : V
  pub payload : Fields

abbrev pub take {ℓ} : {A : Type ℓ} → ℕ → List A → List A
take zero xs = []
take (suc n) [] = []
take (suc n) (x ∷ xs) = x ∷ take n xs

abbrev pub value_at : Text → Fields → Json
value_at key fs = or_default (field_of key fs) null

-- `_prepare_chunk_text`
abbrev pub prepare_chunk_text : (Json → Text) → Json → Text
prepare_chunk_text show null = []
prepare_chunk_text show v = strip (text_of show v)

abbrev pub content_of : (Json → Text) → Fields → Text
content_of show chunk =
    prepare_chunk_text show (or_default (field_of (codes "content") chunk) (string []))

abbrev pub truncated : ℕ → Text → Text
truncated most text = if ltb most (length text) then take most text else text

-- The jobs of the chunks, numbered from `i`; a chunk without a text has none.
unfoldable pub make_jobs : (Json → Text) → ℕ → ℕ → List Fields → List Job
make_jobs show most i [] = []
make_jobs show most i (chunk ∷ chunks) =
    let rest = make_jobs show most (suc i) chunks in
    let text = content_of show chunk in
    if nonempty text then record { index = i; text = truncated most text } ∷ rest else rest

-- `metadata` over the payload, but for what is None.
abbrev pub overlay : Fields → Fields → Fields
overlay end payload = payload
overlay (field key null rest) payload = overlay rest payload
overlay (field key v rest) payload = overlay rest (set_field key v payload)

abbrev pub payload_of : Text → Fields → Fields → Job → Fields
payload_of filing metadata chunk job = overlay metadata (
    field (codes "filing_id") (string filing) (
      field (codes "id") (value_at (codes "id") chunk) (
        field (codes "chunk_id") (value_at (codes "id") chunk) (
          field (codes "page_number") (value_at (codes "page_number") chunk) (
            field (codes "type") (value_at (codes "type") chunk) (
              field (codes "section") (value_at (codes "section") chunk) (
                field (codes "source") (value_at (codes "source") chunk) (
                  field (codes "content") (string job.text)
                    (field (codes "metadata") (value_at (codes "metadata") chunk) end)))))))))

abbrev pub chunk_at : ℕ → List Fields → Fields
chunk_at i [] = end
chunk_at zero (chunk ∷ chunks) = chunk
chunk_at (suc i) (chunk ∷ chunks) = chunk_at i chunks

module _ {V : Type 0} where
  -- `for offset, item in enumerate(response.data)`; `none` is the IndexError of a vector too many.
  unfoldable pub assign : List Job → List V → Dict ℕ V → Option (Dict ℕ V)
  assign jobs [] vectors = some vectors
  assign [] (v ∷ vs) vectors = none
  assign (job ∷ jobs) (v ∷ vs) vectors = assign jobs vs (insert job.index v vectors)

  -- The points of the jobs that have a vector.
  unfoldable pub points_of : Text → Fields → List Fields → Dict ℕ V → List Job → List (Point V)
  points_of filing metadata chunks vectors [] = []
  points_of filing metadata chunks vectors (job ∷ jobs) =
      let rest = points_of filing metadata chunks vectors jobs in
      elim (lookup job.index vectors) [
        | none ↦ rest
        | some v ↦
            record {
              vector = v;
              payload = payload_of filing metadata (chunk_at job.index chunks) job;
            }
            ∷ rest
      ]

module _ (batch_size : ℕ) where
  -- Each job takes a round, its text is cut at most once for each character, and its batch is halved
  -- at most as often as a batch has jobs.
  abbrev pub weight : List Job → ℕ
  weight [] = 0
  weight (job ∷ jobs) = length job.text + suc batch_size + weight jobs

-- The service, whose answers may differ from call to call, and EMBEDDING_BATCH_SIZE.
module _ {V : Type 0} (embed : ℕ → List Text → Reply V) (batch_size : ℕ) where
  -- A batch of one job exceeds the context.
  abbrev pub clip : Progress V → Job → List Job → Next V
  clip p job rest =
      let n = length job.text in
      if ltb 1024 n
      then goes_on (record p {
        left = record job { text = take (max 1024 (n / 2)) job.text } ∷ rest;
        calls = suc p.calls;
      })
      else raises

  abbrev pub exceeded : Progress V → List Job → Next V
  exceeded p [] = raises
  exceeded p (job ∷ rest) =
      if length (take p.batch (job ∷ rest)) == 1
      then clip p job rest
      else goes_on (record p { batch = max 1 (p.batch / 2); calls = suc p.calls })

  abbrev pub assigned : Progress V → Option (Dict ℕ V) → Next V
  assigned p none = raises
  assigned p (some vectors) = goes_on (record {
    done = p.done ++ take p.batch p.left;
    left = drop p.batch p.left;
    batch = batch_size;
    calls = suc p.calls;
    vectors = vectors;
  })

  abbrev pub replied : Progress V → Reply V → Next V
  replied p (embedded vs) = assigned p (assign (take p.batch p.left) vs p.vectors)
  replied p context_exceeded = exceeded p p.left
  replied p failed = raises

  -- A round of the loop.
  unfoldable pub round : Progress V → Next V
  round p = replied p (embed p.calls (map (λ (j : Job). j.text) (take p.batch p.left)))

  -- `while cursor < total`
  unfoldable pub embed_jobs : ℕ → Progress V → Result (Progress V)
  embed_jobs zero p = out_of_fuel
  embed_jobs (suc fuel) p = elim p.left [
    | [] ↦ ended p
    | job ∷ rest ↦ elim (round p) [ goes_on q ↦ embed_jobs fuel q | raises ↦ raised ]
  ]

  abbrev pub start : List Job → Progress V
  start jobs = record { done = []; left = jobs; batch = batch_size; calls = 0; vectors = [] }

  abbrev pub collected : Text → Fields → List Fields → Result (Progress V) → Result (List (Point V))
  collected filing metadata chunks (ended p) =
      ended (points_of filing metadata chunks p.vectors p.done)
  collected filing metadata chunks raised = raised
  collected filing metadata chunks out_of_fuel = out_of_fuel

  -- The points that `store_chunk_vectors` stores, with EMBEDDING_MAX_CONTENT_CHARS as `most`; with no
  -- points there is no call of the vector store.
  unfoldable pub store_chunk_vectors :
      (Json → Text) → ℕ → Text → List Fields → Fields → Result (List (Point V))
  store_chunk_vectors show most filing chunks metadata =
      let jobs = make_jobs show most 0 chunks in
      collected filing metadata chunks
        (embed_jobs (suc (weight batch_size jobs + batch_size)) (start jobs))
