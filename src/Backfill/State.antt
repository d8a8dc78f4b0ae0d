-- ===== src/Backfill/State.antt =====
-- backfill/coordinator.go and db.go: the state of the coordinator, and the database that it works on.
use Prim.Native.String.{◌++◌ as ◌<>◌}
use gtc.Base.{ℕ, zero, suc, String, str_eq, Bool, false, ◌&&◌, List, [], Option}
use gtc.Base.Int.{ℤ, pos, negsuc}
use gtc.Base.Dict.{Dict}
use gtc.Domain.Errors.{Error}
use gtc.Domain.Event.{Value}
use gtc.Domain.Sink.{Ctx}
use gtc.Dlq.Store.{Answer}

pub record TableRef : Type 0 where
  pub schema : String
  pub table : String

-- tableRef.String
unfoldable pub name_of : TableRef → String
name_of t = t.schema <> "." <> t.table

-- t == u
unfoldable pub same_table : TableRef → TableRef → Bool
same_table t u = str_eq t.schema u.schema && str_eq t.table u.table

-- Row and Chunk of db.go
pub record Row : Type 0 where
  pub key : String
  pub values : Dict Value

pub record Chunk : Type 0 where
  pub rows : List Row
  pub last_cursor : List String

-- TableState
pub record TableState : Type 0 where
  pub cursor : List String
  pub done : Bool
  pub rows_copied : ℕ
  pub updated_at : ℕ

-- The zero value
abbrev pub no_state : TableState
no_state = record { cursor = []; done = false; rows_copied = 0; updated_at = 0 }

-- BackfillState and BackfillTableStatus of domain/backfill.go; `unset` is the zero value
pub data BackfillState : Type 0 where
  unset pending running done skipped failed_state : BackfillState

pub record BackfillTableStatus : Type 0 where
  pub schema : String
  pub table : String
  pub state : BackfillState
  pub rows_copied : ℕ
  pub started_at : Option ℕ
  pub completed_at : Option ℕ
  pub error : String

-- The interface DB; Close does nothing to the state.
pub record Db (W : Type 0) : Type 0 where
  pub emit_watermark : Ctx → String → W → W × Option Error
  pub primary_key : Ctx → String → String → W → W × Answer (List String)
  pub select_chunk : Ctx → String → String → List String → List String → ℕ → W → W × Answer Chunk
  pub publication_tables : Ctx → String → W → W × Answer (List (String × String))
  pub ensure_state_table : Ctx → W → W × Option Error
  pub load_state : Ctx → W → W × Answer (Dict TableState)
  pub load_table_state : Ctx → String → W → W × Answer (Option TableState)
  pub save_state : Ctx → String → TableState → W → W × Option Error
  pub mark_pending : Ctx → List String → W → W × Option Error

-- Config; `wanted` is none where the function is nil.
pub record Config : Type 0 where
  pub slot_name : String
  pub publication_name : String
  pub chunk_size : ℕ
  pub chunk_delay : ℕ
  pub lanes : ℕ
  pub excluded_tables : List String
  pub wanted : Option (String → String → Bool)

-- chunkInFlight: `completed` says that the channel done is closed, and `restart` is the number of the
-- restart channel that the chunk was started under.
pub record ChunkInFlight : Type 0 where
  pub table : TableRef
  pub collecting : Bool
  pub seen : List String
  pub pending : List Row
  pub pk_cols : List String
  pub row_count : ℕ
  pub last_cursor : List String
  pub delivered : ℕ
  pub completed : Bool
  pub restart : ℕ

-- The Coordinator. The chunks are objects that the map inflight and the lanes share: `chunks` holds them
-- by id, and `inflight` the ids in the map. `wake` counts the tokens in the channel, and `restarts` the
-- restart channels closed so far.
pub record Coordinator : Type 0 where
  pub cfg : Config
  pub queue : List TableRef
  pub running : List TableRef
  pub state : Dict TableState
  pub status : Dict BackfillTableStatus
  pub chunks : Dict ChunkInFlight
  pub inflight : List String
  pub wake : ℕ
  pub chunk_seq : ℕ
  pub streaming : Bool
  pub restarts : ℕ
  pub instance_id : String

abbrev pub default_chunk_size : ℕ
default_chunk_size = 5000

abbrev pub default_lanes : ℕ
default_lanes = 4

abbrev pub pipeline_depth : ℕ
pipeline_depth = 2

abbrev pub at_least_one : ℤ → ℕ → ℕ
at_least_one (pos zero) other = other
at_least_one (pos (suc n)) other = suc n
at_least_one (negsuc n) other = other

-- NewCoordinator; the sizes of the configuration are replaced where they are not positive
unfoldable pub new_coordinator : Config → ℤ → ℤ → String → Coordinator
new_coordinator cfg chunk_size lanes instance_id = record {
  cfg = record cfg {
    chunk_size = at_least_one chunk_size default_chunk_size;
    lanes = at_least_one lanes default_lanes;
  };
  queue = [];
  running = [];
  state = [];
  status = [];
  chunks = [];
  inflight = [];
  wake = 0;
  chunk_seq = 0;
  streaming = false;
  restarts = 0;
  instance_id = instance_id;
}
