-- ===== src/Tests/Read.antt =====
-- Requests to a query service whose reranker and language model are down.
use mathlib.Core.Option
use mathlib.Core.List.{Permᴰ}
use mathlib.Core.List.Permᴰ
use search_and_retrieval_sys.Prelude.{
  ◌⊎◌, Elem, ℕ, ◌+◌, ◌/◌, String, true, ◌≡◌, ◌≢◌, ◌↔◌, refl, ◌==◌, none, some, List, [], ◌∷◌, map,
  arith, eq_iff, ltb, eqb, if◌then◌else◌,
}
use search_and_retrieval_sys.Prelude.Int.{ℤ, pos, negsuc, ◌+ℤ◌}
use search_and_retrieval_sys.Prelude.Text.{decimal_ℕ}
use search_and_retrieval_sys.Prelude.Sort.{sort}
use search_and_retrieval_sys.Prelude.Maps.{lookup, insert}
use search_and_retrieval_sys.Http.{Transport}
use search_and_retrieval_sys.MlClient.Tei.{RankItem, TeiJson, tei_rerank}
use search_and_retrieval_sys.MlClient.Tei.Retrieved.{retrieve-tei}
use search_and_retrieval_sys.OpenSearch.{OsDoc}
use search_and_retrieval_sys.Search.{get_by_ids}
use search_and_retrieval_sys.Fusion.{Float, rrf}
use search_and_retrieval_sys.Fusion.Complete.{IsListed, ids_of, Elem-rrf_iff}
use search_and_retrieval_sys.Fusion.Determined.{IsFloat, rrf-perm}
use search_and_retrieval_sys.Sources.{Source}
use search_and_retrieval_sys.Server.{Server, Request}
use search_and_retrieval_sys.Retrieval.Provenance.{AllShow, Fetched, retrieve-sources}
use search_and_retrieval_sys.Retrieval.{lexical_lane, vector_lane, retrieve, found}
use search_and_retrieval_sys.Retrieval.Ranking.{retrieve_total}
use search_and_retrieval_sys.Query.{handle_search, handle_ask}
use search_and_retrieval_sys.Query.Isolation.{
  IsIsolated, handle_search-IsIsolated, handle_ask-IsIsolated,
}

-- Whole numbers of millionths in place of floating-point ones.
abbrev pub millionths : ℤ → ℕ
millionths (pos n) = 1000000 / n
millionths (negsuc n) = 0

abbrev pub whole : Float ℕ
whole = record { zero = 0; add = ◌+◌; reciprocal = millionths; equal = eqb; less = ltb }

whole-IsFloat : IsFloat whole
whole-IsFloat = record {
  IsPositive = λ a. Unit {0};
  reciprocal = λ n h. tt;
  add_zero = λ a p. tt;
  add = λ a b p q. tt;
  equal_iff = λ a b p q. ground arith;
  irrefl = λ a p. ground arith;
  trans = λ a b c p q r h k. ground arith;
  total = λ a b p q. ground arith;
}

-- Another order in which a map may be visited.
abbrev swapped : {A : Type 0} → List A → List A
swapped [] = []
swapped (x ∷ []) = x ∷ []
swapped (x ∷ y ∷ xs) = y ∷ x ∷ xs

swapped-perm : {A : Type 0} (xs : List A) → Permᴰ (swapped xs) xs
swapped-perm [] = Permᴰ.nil
swapped-perm (x ∷ []) = Permᴰ.refl (x ∷ [])
swapped-perm (x ∷ y ∷ xs) = Permᴰ.swap refl refl

abbrev pub stored : String → OsDoc
stored id = record {
  doc_id = id;
  source = "postgres";
  tenant_id = "7";
  title = "t";
  body = "b";
  category = "";
  version = pos 1;
  commit_ts = pos 1;
}

abbrev pub server : Server ℕ
server = record {
  out = record {
    search_answer = λ body. some ("a" ∷ "b" ∷ []);
    embed_answer = λ texts. some ((1 ∷ []) ∷ []);
    nearest_answer = λ q. some (some "b" ∷ []);
    mget_answer = λ ids. some (map (λ id. (id, some (stored id))) ids);
    rerank_answer = λ query texts. none;
    generate_answer = λ query sources. none;
    score_faithfulness = λ text sources. (1, []);
    redis = record { connected = true; get = λ k. none; parse_int = λ text. pos 0 };
    sem = record { enabled = true; threshold = 1; less = ltb; query = λ p. some [] };
    encode_reply = λ reply. none;
    decode_reply = λ json. none;
    latency_ms = pos 3;
  };
  runtime = record {
    to_lower = λ text. text;
    hex_sha1 = λ text. text;
    filter_order = λ m. m;
    key_order = λ ks. ks;
    score_order = λ m. m;
    float = whole;
  };
  rrf_k = pos 60;
  rerank_n = pos 50;
  top_k = pos 6;
  faith_min = 1;
  api_key = "secret";
}

-- The client asks for the documents of tenant 8, under the header of tenant 7.
abbrev pub request : Request
request = record {
  header =
      λ name. if name == "X-API-Key" then "secret" else if name == "X-Tenant-ID" then "7" else "";
  body = some (record { query = "q"; filters = ("tenant_id", "8") ∷ []; top_k = pos 0 });
}

keyed : server.api_key ≢ ""
keyed e = ground (arith, eq_iff server.api_key "")

handle_search-IsIsolated_example : IsIsolated server request (handle_search server request)
handle_search-IsIsolated_example = handle_search-IsIsolated server (λ m k. refl) keyed request

handle_ask-IsIsolated_example : IsIsolated server request (handle_ask server request)
handle_ask-IsIsolated_example = handle_ask-IsIsolated server (λ m k. refl) keyed request

retrieve_total_example :
    (sources : List Source) × ((retrieve server "q" [] (pos 0) none).0 ≡ found sources)
retrieve_total_example =
    retrieve_total server (λ ids e. cc) (λ query docs order e. cc) "q" [] (pos 0) none

-- "b" stands in both lanes, so it comes first.
abbrev ranked : List Source
ranked =
    record { marker = "doc_1"; doc_id = "b"; origin = "postgres"; text = "t. b" }
    ∷ record { marker = "doc_2"; doc_id = "a"; origin = "postgres"; text = "t. b" }
    ∷ []

retrieve_test : (retrieve server "q" [] (pos 0) none).0 ≡ found ranked
unfolding retrieve rrf sort insert lookup ◌+ℤ◌ get_by_ids decimal_ℕ
retrieve_test = refl

rrf-perm_example :
    rrf whole (λ m. m) (("a" ∷ "b" ∷ []) ∷ ("b" ∷ []) ∷ []) (pos 0)
    ≡ rrf whole swapped (("a" ∷ "b" ∷ []) ∷ ("b" ∷ []) ∷ []) (pos 0)
rrf-perm_example =
    rrf-perm whole-IsFloat (λ m. m) swapped Permᴰ.refl swapped-perm
      (("a" ∷ "b" ∷ []) ∷ ("b" ∷ []) ∷ []) (pos 0)

seven : ◌≢◌ {A = String} "7" ""
seven e = ground (arith, eq_iff "7" "")

Elem-rrf_iff_example :
    Elem "b" (ids_of whole (rrf whole swapped (("a" ∷ "b" ∷ []) ∷ ("b" ∷ []) ∷ []) (pos 0)))
    ↔ IsListed "b" (("a" ∷ "b" ∷ []) ∷ ("b" ∷ []) ∷ [])
Elem-rrf_iff_example =
    Elem-rrf_iff whole swapped swapped-perm (("a" ∷ "b" ∷ []) ∷ ("b" ∷ []) ∷ []) (pos 0) "b"

retrieve-sources_example :
    (ids : List String) × AllShow (Fetched server ids) 1 ranked
    × ((id : String)
        → Elem id ids
        → Elem id (lexical_lane server "q" []).0 ⊎ Elem id (vector_lane server "q" [] none).0)
retrieve-sources_example =
    retrieve-sources server Permᴰ.refl "q" [] (pos 0) none ranked retrieve_test

-- The answer of the reranker is out of its order.
abbrev items : List (RankItem ℕ)
items = record { index = pos 1; score = 5 } ∷ record { index = pos 0; score = 9 } ∷ []

abbrev tei_json : TeiJson ℕ
tei_json = record {
  embed_req = λ texts. "";
  rerank_req = λ query texts. "";
  decode_vectors = λ content. none;
  decode_items = λ content. some items;
  zero_f = 0;
  less = ltb;
}

abbrev answers : Transport
answers r = some (record { status = 200; content = "" })

abbrev tei_server : Server ℕ
tei_server = record server {
  out = record server.out {
    rerank_answer = λ query docs.
        Option.map (λ (r : List ℕ × List ℤ). r.1)
          (tei_rerank tei_json answers "http://e" "http://r" query docs);
  };
}

retrieve-tei_example :
    (sources : List Source) × ((retrieve tei_server "q" [] (pos 0) none).0 ≡ found sources)
retrieve-tei_example =
    retrieve-tei tei_server tei_json answers "http://e" "http://r" (λ query docs. refl)
      (λ ids e. cc) "q" [] (pos 0) none
