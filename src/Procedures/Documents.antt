-- ===== src/Procedures/Documents.antt =====
-- `save_document` and `get_document`.
use swpt_debtors.Prelude.{
  ℕ, ◌+◌, ◌&&◌, Option, List, [], ◌∷◌, ◌++◌, String, ◌==◌, nat_Eq, int_Eq, ℤ, first,
}
use swpt_debtors.Models.{Database, Document}
use swpt_debtors.Procedures.Monad.{Procedure, pure, query, modify, ◌>>=◌, ◌>>◌, now, save_debtor}
use swpt_debtors.Procedures.Config.{throttle_document_saves}

-- The content is the list of its bytes.
unfoldable pub save_document : ℤ → String → List ℕ → ℕ → Procedure Document
unfolding throttle_document_saves save_debtor now
save_document debtor_id content_type content max_saves_per_year = do
  current_ts ← now
  debtor ← throttle_document_saves debtor_id max_saves_per_year current_ts
  save_debtor debtor
  inserted_at ← now
  document_id ← query (λ db. db.next_document_id)
  let document : Document = record {
    debtor_id = debtor_id;
    document_id = document_id;
    content_type = content_type;
    content = content;
    inserted_at = inserted_at;
  }
  modify λ db. record db {
    documents = db.documents ++ document ∷ [];
    next_document_id = document_id + 1;
  }
  pure document

unfoldable pub get_document : ℤ → ℕ → Database → Option Document
get_document debtor_id document_id db =
    first (λ x. x.debtor_id == debtor_id && x.document_id == document_id) db.documents
