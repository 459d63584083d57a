-- ===== src/Tests/Answers.antt =====
-- A question that no cache answers, to a query service with a language model.
use mathlib.Core.List.Permᴰ
use search_and_retrieval_sys.Prelude.{ℕ, String, false, ◌≡◌, refl, none, some, List, [], ◌∷◌, All}
use search_and_retrieval_sys.Prelude.Int.{pos, ◌+ℤ◌}
use search_and_retrieval_sys.Prelude.Text.{decimal_ℕ, trim_space}
use search_and_retrieval_sys.Prelude.Sort.{sort}
use search_and_retrieval_sys.Prelude.Maps.{lookup, insert}
use search_and_retrieval_sys.Search.{get_by_ids}
use search_and_retrieval_sys.Fusion.{rrf}
use search_and_retrieval_sys.Sources.{Source}
use search_and_retrieval_sys.Access.{auth_tenant, scope_filters}
use search_and_retrieval_sys.Cache.{get_cached, generation}
use search_and_retrieval_sys.SemCache.{lookup_answer, probes}
use search_and_retrieval_sys.Server.{Server, Reply, AskReq}
use search_and_retrieval_sys.Retrieval.{found, retrieve, embed_query}
use search_and_retrieval_sys.Query.{answered, handle_ask}
use search_and_retrieval_sys.Query.Grounded.{handle_ask_grounded}
use search_and_retrieval_sys.Rag.Citations.{citations_from_text}
use search_and_retrieval_sys.Rag.Provider.{new_provider, provider_score}
use search_and_retrieval_sys.Rag.Provider.Judged.{InUnit}
use search_and_retrieval_sys.Rag.Provider.Cited.{OfSource}
use search_and_retrieval_sys.Tests.Read.{server, request}
use search_and_retrieval_sys.Tests.Rag.{
  same_text, percent, percent-HasUnit, json, replies, env, visited,
}

abbrev llm_server : Server ℕ
llm_server = record server {
  out = record server.out {
    generate_answer = (new_provider percent json replies same_text visited env).answer;
    score_faithfulness = λ text sources. (
      (provider_score percent json replies same_text visited "llm"
          (new_provider percent json replies same_text visited env) text sources).score,
      [],
    );
  };
}

abbrev llm_reply : Reply ℕ
llm_reply = record {
  answer = record {
    text = "see doc_1.";
    model = "litellm:gemini-flash";
    citations = record { marker = "doc_1"; doc_id = "b"; source = "postgres"; score = 0 } ∷ [];
  };
  faithfulness = 100;
  unsupported = [];
  warning = false;
  latency_ms = pos 3;
  cached = false;
  semantic_score = none;
}

served : (handle_ask llm_server request).0 ≡ answered llm_reply
unfolding handle_ask auth_tenant get_cached generation lookup_answer probes retrieve rrf sort insert
    lookup ◌+ℤ◌ get_by_ids decimal_ℕ new_provider provider_score citations_from_text trim_space
served = refl

handle_ask_grounded_example :
    (tenant : String) × (req : AskReq) × (sources : List Source) × (auth_tenant llm_server.api_key
        request.header
      ≡ some tenant)
    × (request.body ≡ some req)
    × ((retrieve llm_server req.query
          (scope_filters req.filters tenant)
          req.top_k
          (embed_query llm_server req.query)).0
        ≡ found sources)
    × All (OfSource percent sources) llm_reply.answer.citations
    × InUnit percent llm_reply.faithfulness
    × (llm_reply.warning
        ≡ llm_server.runtime.float.less llm_reply.faithfulness llm_server.faith_min)
handle_ask_grounded_example =
    handle_ask_grounded llm_server percent percent-HasUnit json replies same_text visited Permᴰ.refl
      env "llm" (record { generates = λ query sources. refl; scores = λ text sources. refl })
      request llm_reply served refl
