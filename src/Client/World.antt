-- ===== src/Client/World.antt =====
-- What a client calls over the network, and how its calls come out.
use fstorex.Base.{ℕ, String, Option, ◌≡◌, refl, ◌⊎◌, inl, inr}
use fstorex.Base.Dict.{Dict}
use fstorex.Types.{Time}
use fstorex.Metadata.State.{MetadataServer}
use fstorex.Metadata.Server.{Raft}
use fstorex.DataNode.Bytes.{Bytes}
use fstorex.DataNode.Disk.{DataNode, Faults, DataError}

-- A metadata server under its address.
pub record Site : Type 0 where
  pub raft : Raft
  pub state : MetadataServer

pub record World : Type 0 where
  pub sites : Dict String Site
  pub nodes : Dict String DataNode

-- How a call of a metadata server comes out: the dial fails, the answer is lost behind the work,
-- or it arrives.
pub data MdsContact : Type 0 where
  down lost_answer up : MdsContact

-- The same for a data node, with the faults of the handler's run.
pub data NodeContact : Type 0 where
  no_dial : NodeContact
  lost_reply : Faults → NodeContact
  served : Faults → NodeContact

-- How the calls of one operation come out: those of a metadata server by method and address, those
-- of a data node by a number that tells the operation's calls of one node apart, and address. The
-- texts of the network's errors are the system's. `received` is what bytes that are decoded into a
-- nil slice leave there, `none` where it stays nil.
pub record Net : Type 0 where
  pub mds : String → String → MdsContact
  pub node : ℕ → String → NodeContact
  pub dial_text : String → String
  pub lost_text : String
  pub data_text : DataError → String
  pub received : Bytes → Option Bytes
  pub new_id : Option String
  pub now : Time

-- A Go result: a value, or the text of an error.
pub data Result {ℓ} (A : Type ℓ) : Type ℓ where
  returns : A → Result A
  fails : String → Result A

pub Result-cases {ℓ} :
    {A : Type ℓ} (x : Result A) → ((a : A) × (x ≡ returns a)) ⊎ ((text : String) × (x ≡ fails text))
Result-cases (returns a) = inl (a, refl)
Result-cases (fails text) = inr (text, refl)
