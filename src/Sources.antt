-- ===== src/Sources.antt =====
-- The texts of a retrieved document: `Source` of internal/rag/rag.go, and what `retrieve` and
-- `markerFor` of cmd/query/main.go make of a document.
use Prim.Native.String.{◌++◌}
use search_and_retrieval_sys.Prelude.{ℕ, String}
use search_and_retrieval_sys.Prelude.Text.{decimal_ℕ}
use search_and_retrieval_sys.Search.{Doc}

-- `rag.Source`, whose score is never set here.
pub record Source : Type 0 where
  pub marker : String
  pub doc_id : String
  pub origin : String
  pub text : String

unfoldable pub marker_for : ℕ → String
marker_for n = "doc_" ++ decimal_ℕ n

abbrev pub rerank_text : Doc → String
rerank_text d = d.title ++ " " ++ d.body

abbrev pub source_of : ℕ → Doc → Source
source_of n d = record {
  marker = marker_for n;
  doc_id = d.doc_id;
  origin = d.source;
  text = d.title ++ ". " ++ d.body;
}
