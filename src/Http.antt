-- ===== src/Http.antt =====
-- What net/http exchanges: a request is answered, or its sending fails, which is `none`; the failures of
-- `http.NewRequest` are among these.
use search_and_retrieval_sys.Prelude.{ℕ, String, Option, List}

pub record HttpRequest : Type 0 where
  pub method : String
  pub url : String
  pub headers : List (String × String)
  pub body : String

pub record HttpResponse : Type 0 where
  pub status : ℕ
  pub content : String

abbrev pub Transport : Type 0
Transport = HttpRequest → Option HttpResponse
