-- ===== src/Embedding/Tests.antt =====
-- Three chunks, one of them without a text, with a service that takes one text at a time.
use ko_finance.Common.{
  ℕ, Text, codes, length, strip, lstrip, rstrip, is_space, text_eq, field_of, Json, string, Fields,
  end, field, lookup, insert, List, [], ◌∷◌, ◌≡◌, refl, arith,
}
use ko_finance.Embedding.{
  Reply, embedded, context_exceeded, Result, ended, Point, make_jobs, assign, points_of, round,
  embed_jobs, store_chunk_vectors,
}
use ko_finance.Embedding.Ends.{Ended, store_chunk_vectors-Ended}
use ko_finance.Embedding.Complete.{Answers, store_chunk_vectors_complete}

abbrev one_by_one : ℕ → List Text → Reply ℕ
one_by_one call [] = embedded []
one_by_one call (t ∷ []) = embedded (length t ∷ [])
one_by_one call (t ∷ u ∷ ts) = context_exceeded

one_by_one-Answers : Answers one_by_one
one_by_one-Answers call [] = refl
one_by_one-Answers call (t ∷ []) = refl
one_by_one-Answers call (t ∷ u ∷ ts) = tt

abbrev no_text : Json → Text
no_text v = []

abbrev three_chunks : List Fields
three_chunks =
    field (codes "content") (string (codes " revenue ")) end
    ∷ field (codes "content") (string (codes "  ")) end
    ∷ field (codes "content") (string (codes "net income of the year")) end
    ∷ []

abbrev storing : Result (List (Point ℕ))
storing = store_chunk_vectors one_by_one 4 no_text 10 (codes "f") three_chunks end

store_chunk_vectors-Ended_example : Ended storing
store_chunk_vectors-Ended_example =
    store_chunk_vectors-Ended one_by_one 4 no_text 10 (codes "f") three_chunks end (omega arith)

store_chunk_vectors_complete_example :
    (points : List (Point ℕ)) × (storing ≡ ended points)
    × (length points ≡ length (make_jobs no_text 10 0 three_chunks))
store_chunk_vectors_complete_example =
    store_chunk_vectors_complete one_by_one 4 no_text 10 (codes "f") three_chunks end
      one_by_one-Answers (omega arith)

-- The batch of two is halved, and the second text is cut to ten characters.
abbrev vectors_in : Result (List (Point ℕ)) → List ℕ
vectors_in (ended (p ∷ q ∷ [])) = p.vector ∷ q.vector ∷ []
vectors_in r = []

storing_runs : vectors_in storing ≡ 7 ∷ 10 ∷ []
unfolding store_chunk_vectors embed_jobs round assign points_of make_jobs lookup insert field_of
    text_eq strip lstrip rstrip is_space
storing_runs = refl
