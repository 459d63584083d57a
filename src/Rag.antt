-- ===== src/Rag.antt =====
-- internal/rag: the sentences and tokens of a text, the citations, the providers and the score.
pub mod Words
pub mod Citations
pub mod Extractive
pub mod Faithfulness
pub mod Provider
