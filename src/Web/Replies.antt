-- ===== src/Web/Replies.antt =====
-- What a request has passed when it is answered with a value.
use swpt_debtors.Prelude.{ℕ, ◌≡◌, refl, sym, ap, ◌∙◌, Bool, true, false, Option, none, some}
use swpt_debtors.Models.{Database}
use swpt_debtors.Web.Users.{Access, allowed, denied}
use swpt_debtors.Web.Response.{Response, reply, redirected, aborted, Endpoint}
use swpt_debtors.Web.Served.{guarded, validated, rendered}

abbrev pub is_reply : {A : Type 0} → Response A → Bool
is_reply (reply _ _) = true
is_reply _ = false

abbrev status_of : {A : Type 0} → Response A → ℕ
status_of (reply status _) = status
status_of (redirected status) = status
status_of (aborted status) = status

pub reply_injective : {A : Type 0} (n : ℕ) (a b : A) → reply n a ≡ reply n b → a ≡ b
reply_injective n a b h = cc

module _ (A B : Type 0) (n : ℕ) (a : A) (db db' : Database) where
  pub guarded_reply :
      (access : Access B) (endpoint : Endpoint A)
      → guarded access endpoint db ≡ (reply n a, db')
      → (b : B) × (access ≡ allowed b) × (endpoint db ≡ (reply n a, db'))
  guarded_reply (denied status) endpoint h =
      let away : false ≡ true = ap (λ x. is_reply x.0) h in absurd cc
  guarded_reply (allowed b) endpoint h = (b, refl, h)

  pub validated_reply :
      (o : Option B) (endpoint : B → Endpoint A)
      → validated o endpoint db ≡ (reply n a, db')
      → (b : B) × (o ≡ some b) × (endpoint b db ≡ (reply n a, db'))
  validated_reply none endpoint h = let away : false ≡ true = ap (λ x. is_reply x.0) h in absurd cc
  validated_reply (some b) endpoint h = (b, refl, h)

  pub rendered_reply :
      (dump : B → A) (r : Response B × Database)
      → rendered dump (λ _. r) db ≡ (reply n a, db')
      → (b : B) × (r ≡ (reply n b, db')) × (dump b ≡ a)
  rendered_reply dump (reply status b, db1) h =
      let same : status ≡ n = ap (λ x. status_of x.0) h in
      let kept : db1 ≡ db' = ap (λ x. x.1) h in
      let value : dump b ≡ a =
        reply_injective n (dump b) a (ap (λ k. reply k (dump b)) (sym same) ∙ ap (λ x. x.0) h) in
      (b, ap (λ k. (reply k b, db1)) same ∙ ap (λ x. (reply n b, x)) kept, value)
  rendered_reply dump (redirected status, db1) h =
      let away : false ≡ true = ap (λ x. is_reply x.0) h in absurd cc
  rendered_reply dump (aborted status, db1) h =
      let away : false ≡ true = ap (λ x. is_reply x.0) h in absurd cc
