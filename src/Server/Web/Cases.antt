-- ===== src/Server/Web/Cases.antt =====
-- internal/server/web.go: an answer by cases on what the handler tests, with the outcome of the test.
use im_system.Common.{◌≡◌, refl, Bool, true, false, Option, none, some, if◌then◌else◌}
use im_system.Db.{DbError, Result, ok, err}
use im_system.Server.{Server}
use im_system.Server.Web.{Reply}

module _ {κ} (P : Server × Reply → Type κ) where
  pub if_answer :
      (c : Bool) {q r : Server × Reply}
      → (c ≡ true → P q)
      → (c ≡ false → P r)
      → P (if c then q else r)
  if_answer true v w = v refl
  if_answer false v w = w refl

  pub option_answer {ℓ} :
      {A : Type ℓ} (o : Option A) {q : Server × Reply} {f : A → Server × Reply}
      → (o ≡ none → P q)
      → ((a : A) → o ≡ some a → P (f a))
      → P (elim o [ none ↦ q | some a ↦ f a ])
  option_answer none v w = v refl
  option_answer (some a) v w = w a refl

  pub result_answer {ℓ} :
      {A : Type ℓ} (o : Result A) {q : DbError → Server × Reply} {f : A → Server × Reply}
      → ((e : DbError) → o ≡ err e → P (q e))
      → ((a : A) → o ≡ ok a → P (f a))
      → P (elim o [ err e ↦ q e | ok a ↦ f a ])
  result_answer (err e) v w = v e refl
  result_answer (ok a) v w = w a refl
