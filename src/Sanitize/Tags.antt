-- ===== src/Sanitize/Tags.antt =====
-- internal/server/server.go: the tags in a sanitised text, and the rounds of the loop.
use im_system.Common.{
  ℕ, suc, ◌≡◌, refl, sym, ap, ◌∙◌, Bool, true, false, ◌||◌, not, some, [], ◌∷◌, ◌++◌, arith, Text,
  text_eq, text_eq_iff, text_eq_refl, take, drop, take-append-drop, any, any-append, Bool-cases,
  inl, inr,
}
use im_system.Text.Trim.{trim_space}
use im_system.Text.Trim.Idempotent.{trim_space_infix}
use im_system.Sanitize.{
  is_gt, opens_tag, remove_tags, strip_loop, ellipsis, truncate, sanitize_input_with_limit,
}

-- Some `<` stands before some `>`.
unfoldable pub has_tag : Text → Bool
has_tag [] = false
has_tag (c ∷ s) = opens_tag c s || has_tag s

gt-remove_tags : (b : Bool) (s : Text) → any is_gt s ≡ false → any is_gt (remove_tags b s) ≡ false
unfolding remove_tags any
gt-remove_tags b [] h = refl
gt-remove_tags true (c ∷ s) h = gt-remove_tags (not (is_gt c)) s (ground arith)
gt-remove_tags false (c ∷ s) h = ground (arith, gt-remove_tags (opens_tag c s) s)

pub has_tag-remove_tags : (b : Bool) (s : Text) → has_tag (remove_tags b s) ≡ false
unfolding remove_tags has_tag
has_tag-remove_tags b [] = refl
has_tag-remove_tags true (c ∷ s) = has_tag-remove_tags (not (is_gt c)) s
has_tag-remove_tags false (c ∷ s) =
    ground (arith, has_tag-remove_tags (opens_tag c s) s, gt-remove_tags (opens_tag c s) s)

pub remove_tags_none : (s : Text) → has_tag s ≡ false → remove_tags false s ≡ s
unfolding remove_tags has_tag
remove_tags_none [] h = refl
remove_tags_none (c ∷ s) h = ground (arith, remove_tags_none s)

-- The loop ends in its second round at the latest, with all tags removed: one pass leaves no tag.
pub strip_loop_total :
    (rounds : ℕ) (s : Text) → strip_loop (suc (suc rounds)) s ≡ some (remove_tags false s)
unfolding strip_loop
strip_loop_total rounds s =
    let once = remove_tags_none (remove_tags false s) (has_tag-remove_tags false s) in
    elim (Bool-cases (text_eq (remove_tags false s) s)) [
      | inl e ↦ rw (e, strip_loop) (ap some (sym ((text_eq_iff _ _).0 e)))
      | inr e ↦ rw (e, strip_loop, once, text_eq_refl) refl
    ]

pub sanitize_input_with_limit_lem :
    (s : Text) (n : ℕ)
    → sanitize_input_with_limit s n ≡ trim_space (truncate (remove_tags false s) n)
unfolding sanitize_input_with_limit
sanitize_input_with_limit_lem s n = rw (strip_loop_total 0 s, sanitize_input_with_limit)

has_tag-append-left : (p q : Text) → has_tag (p ++ q) ≡ false → has_tag p ≡ false
unfolding has_tag
has_tag-append-left [] q h = refl
has_tag-append-left (c ∷ p) q h = ground (arith, has_tag-append-left p q, any-append is_gt p q)

has_tag-append-right : (p q : Text) → has_tag (p ++ q) ≡ false → has_tag q ≡ false
unfolding has_tag
has_tag-append-right [] q h = h
has_tag-append-right (c ∷ p) q h = has_tag-append-right p q (ground arith)

has_tag-append-ellipsis : (p : Text) → has_tag p ≡ false → has_tag (p ++ ellipsis) ≡ false
unfolding has_tag any
has_tag-append-ellipsis [] h = refl
has_tag-append-ellipsis (c ∷ p) h =
    ground (arith, has_tag-append-ellipsis p, any-append is_gt p ellipsis)

has_tag-truncate : (s : Text) (n : ℕ) → has_tag s ≡ false → has_tag (truncate s n) ≡ false
unfolding truncate
has_tag-truncate s n h = ground (
  arith,
  has_tag-append-ellipsis (take n s),
  has_tag-append-left (take n s) (drop n s),
  ap has_tag (take-append-drop n s),
)

has_tag-trim_space : (s : Text) → has_tag s ≡ false → has_tag (trim_space s) ≡ false
has_tag-trim_space s h =
    let (p, q, e) = trim_space_infix s in
    has_tag-append-left (trim_space s) q
      (has_tag-append-right p (trim_space s ++ q) (sym (ap has_tag e) ∙ h))

-- A sanitised text has no `<` before a `>`, whatever the input and the limit.
pub sanitize_removes_tags : (s : Text) (n : ℕ) → has_tag (sanitize_input_with_limit s n) ≡ false
sanitize_removes_tags s n =
    rw (sanitize_input_with_limit_lem s n)
      (has_tag-trim_space _ (has_tag-truncate _ n (has_tag-remove_tags false s)))
