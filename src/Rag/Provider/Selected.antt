-- ===== src/Rag/Provider/Selected.antt =====
-- The provider that the environment selects.
use search_and_retrieval_sys.Prelude.{String, ◌==◌, ◌≡◌, ◌⊎◌, inl, inr, Bool-cases}
use search_and_retrieval_sys.Prelude.Maps.{Map}
use search_and_retrieval_sys.Http.{Transport}
use search_and_retrieval_sys.Server.{Citation}
use search_and_retrieval_sys.Rag.Faithfulness.{Fraction}
use search_and_retrieval_sys.Rag.Provider.{
  LiteLlm, LlmJson, extractive, lite_llm, new_lite_llm, new_provider,
}

module _ {F : Type 0} (fraction : Fraction F) (json : LlmJson F) (send : Transport)
    (to_lower : String → String) (order : Map (Citation F) → Map (Citation F)) where
  -- The provider is one of two.
  pub new_provider-cases :
      (env : String → String)
      → (new_provider fraction json send to_lower order env
          ≡ extractive fraction json send to_lower order)
        ⊎ ((l : LiteLlm) × (new_provider fraction json send to_lower order env
              ≡ lite_llm fraction json send to_lower order l))
  unfolding new_provider
  new_provider-cases env = elim (Bool-cases (to_lower (env "LLM_PROVIDER") == "litellm")) [
    | inr other ↦ inl (rw other)
    | inl named ↦ elim (Bool-cases (env "LITELLM_URL" == "")) [
      | inl unset ↦ inl (rw (named, unset))
      | inr given ↦ inr (
        new_lite_llm (env "LITELLM_URL") (env "LITELLM_API_KEY") (env "LLM_MODEL"),
        rw (named, given),
      )
    ]
  ]
