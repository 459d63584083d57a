-- ===== src/IndexerLane/Accounting.antt =====
-- What becomes of the records that a lane polls, over its rounds.
use search_and_retrieval_sys.Prelude.{◌≡◌, List, [], ◌++◌}
use search_and_retrieval_sys.Contract.{CanonicalDoc}
use search_and_retrieval_sys.Indexer.{State, apply}
use search_and_retrieval_sys.Indexer.Newest.{AreRanges}
use search_and_retrieval_sys.IndexerLane.{Lane, Setting, Poll, canceled, fetched, start, iterate}
use search_and_retrieval_sys.IndexerLane.Handling.{Settled, IsSound, Keeps, values}

module _ {Bytes Vector : Type 0} (st : Setting Bytes Vector) (fair : AreRanges st.ranges) where
  -- The step keeps the account of every record, and its soundness.
  abbrev KeepsAccount : (Bytes → Type 0) → Lane Bytes Vector → Lane Bytes Vector → Type 0
  KeepsAccount Seen l l' = Keeps st l l' × (IsSound st Seen l → IsSound st Seen l')

  -- The values that one round polls.
  abbrev pub polled : Poll Bytes → List Bytes
  polled (canceled committed) = []
  polled (fetched rs now committed) = values st rs

  -- The states that a lane runs through, with all the values that it has polled, the latest first.
  -- Between two rounds the other lane, which shares the indexer, may apply a batch.
  pub data Runs (s : State Vector) : List Bytes → Lane Bytes Vector → Type 0 where
    starts : Runs s [] (start s)
    polls :
        {vs ws : List Bytes} {l l' : Lane Bytes Vector} (p : Poll Bytes)
        → Runs s vs l
        → ws ≡ polled p ++ vs
        → l' ≡ (iterate st l p).0
        → Runs s ws l'
    meanwhile :
        {vs : List Bytes} {l l' : Lane Bytes Vector} (docs : List CanonicalDoc)
        → Runs s vs l
        → l' ≡ record l { indexer = (apply st.out st.ranges docs l.indexer).1 }
        → Runs s vs l'
