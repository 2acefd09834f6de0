-- ===== src/Thrift/Codec/Evolution.antt =====
-- Versions of a struct: one side writes fields that the other does not know, and the other way round.
pub mod Rounds
pub mod Versions
use msgrpc.Base.{◌^◌, ◌<◌, ℕ, ◌≡◌, ok, Run, Bool, true, false}
use msgrpc.Msg.{Bytes}
use msgrpc.Thrift.{TypeT, Fields, end, required, optional, code, Slot, Value, Object, default}
use msgrpc.Thrift.Protocol.{Protocol}
use msgrpc.Thrift.Protocol.Laws.{Reads}
use msgrpc.Thrift.Codec.{write}
use msgrpc.Thrift.Codec.Writable.{Lacks, IsWritable}

-- The fields of the reader from those of the writer, in order: some are dropped, whose ids the reader
-- has not, and some optional ones are added. Names may change.
pub data Evolves (reader : Fields) : Fields → Fields → Type 0 where
  done : Evolves reader end end
  keep_required :
      (fid : ℕ) (name name' : Bytes) (t : TypeT) {fs fs' : Fields}
      → Evolves reader fs fs'
      → Evolves reader (required fid name t fs) (required fid name' t fs')
  keep_optional :
      (fid : ℕ) (name name' : Bytes) (t : TypeT) {fs fs' : Fields}
      → Evolves reader fs fs'
      → Evolves reader (optional fid name t fs) (optional fid name' t fs')
  drop_required :
      (fid : ℕ) (name : Bytes) (t : TypeT) {fs fs' : Fields}
      → Lacks fid reader
      → Evolves reader fs fs'
      → Evolves reader (required fid name t fs) fs'
  drop_optional :
      (fid : ℕ) (name : Bytes) (t : TypeT) {fs fs' : Fields}
      → Lacks fid reader
      → Evolves reader fs fs'
      → Evolves reader (optional fid name t fs) fs'
  add_optional :
      (fid : ℕ) (name : Bytes) (t : TypeT) {fs fs' : Fields}
      → Evolves reader fs fs'
      → Evolves reader fs (optional fid name t fs')

-- The reader's object: what was written of the fields that it knows, and no value for those added.
abbrev pub seen : {reader fs fs' : Fields} → Evolves reader fs fs' → Object fs → Object fs'
seen done o = o
seen (keep_required fid name name' t e) (v, o) = (v, seen e o)
seen (keep_optional fid name name' t e) (slot, o) = (slot, seen e o)
seen (drop_required fid name t new e) (v, o) = seen e o
seen (drop_optional fid name t new e) (slot, o) = seen e o
seen (add_optional fid name t e) o = (record { value = default t; isset = false }, seen e o)

module _ (p : Protocol) (less : (t : TypeT) → Value t → Value t → Bool) where
  -- `skip` takes the bytes of a value of the type.
  abbrev pub IsSkipped : TypeT → ℕ → Type 0
  IsSkipped t depth =
      (v : Value t) (bs : Bytes)
      → IsWritable less t v
      → write p t depth v ≡ ok bs
      → Reads (p.skip (code t)) bs tt

  -- The ids of the dropped fields are in range, and `skip` takes their values.
  abbrev pub DroppedAreSkipped : {reader fs fs' : Fields} → Evolves reader fs fs' → ℕ → Type 0
  DroppedAreSkipped done depth = Unit
  DroppedAreSkipped (keep_required fid name name' t e) depth = DroppedAreSkipped e depth
  DroppedAreSkipped (keep_optional fid name name' t e) depth = DroppedAreSkipped e depth
  DroppedAreSkipped (drop_required fid name t new e) depth =
      (fid < 2 ^ 15) × IsSkipped t depth × DroppedAreSkipped e depth
  DroppedAreSkipped (drop_optional fid name t new e) depth =
      (fid < 2 ^ 15) × IsSkipped t depth × DroppedAreSkipped e depth
  DroppedAreSkipped (add_optional fid name t e) depth = DroppedAreSkipped e depth
