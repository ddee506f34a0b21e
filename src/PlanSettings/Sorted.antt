-- ===== src/PlanSettings/Sorted.antt =====
-- Sorting and cleaning a list of entitlements loses none of them.
use ko_finance.Common.{
  Text, text_eq, text_eq_iff, strip, nonempty, member, first_texts, map, true, ◌||◌, List, [], ◌∷◌,
  ◌++◌, ◌≡◌, refl, ap, ◌∙◌, arith,
}
use ko_finance.PlanSettings.Disk.{cleaned}
use ko_finance.PlanSettings.Changes.{sorted_insert, sorted_set}

pub member-append :
    (e : Text) (xs ys : List Text) → member e (xs ++ ys) ≡ (member e xs || member e ys)
member-append e [] ys = refl
member-append e (x ∷ xs) ys = ground (arith, member-append e xs ys)

member-sorted_insert :
    (e t : Text) (ss : List Text) → member e (sorted_insert t ss) ≡ (text_eq e t || member e ss)
unfolding sorted_insert
member-sorted_insert e t [] = refl
member-sorted_insert e t (s ∷ ss) =
    ground (arith, member-sorted_insert e t ss, text_eq_iff t s, text_eq_iff e t, text_eq_iff e s)

pub member-sorted_set : (e : Text) (ts : List Text) → member e (sorted_set ts) ≡ member e ts
unfolding sorted_set
member-sorted_set e [] = refl
member-sorted_set e (t ∷ ts) =
    member-sorted_insert e t (sorted_set ts) ∙ ap (λ b. text_eq e t || b) (member-sorted_set e ts)

member-first_texts :
    (e : Text) (seen ts : List Text)
    → nonempty e ≡ true
    → member e ts ≡ true
    → (member e seen || member e (first_texts seen ts)) ≡ true
unfolding first_texts
member-first_texts e seen [] n h = absurd (ground (arith, h))
member-first_texts e seen (t ∷ ts) n h =
    ground
      (arith, text_eq_iff e t, member-first_texts e (t ∷ seen) ts n, member-first_texts e seen ts n)

member-map-strip :
    (e : Text) (ts : List Text) → strip e ≡ e → member e ts ≡ true → member e (map strip ts) ≡ true
member-map-strip e [] s h = h
member-map-strip e (t ∷ ts) s h =
    ground (arith, text_eq_iff e t, text_eq_iff e (strip t), member-map-strip e ts s)

-- A cleaned list has the texts that need no cleaning.
pub member-cleaned :
    (e : Text) (ts : List Text)
    → strip e ≡ e
    → nonempty e ≡ true
    → member e ts ≡ true
    → member e (cleaned ts) ≡ true
member-cleaned e ts s n h = member-first_texts e [] (map strip ts) n (member-map-strip e ts s h)
