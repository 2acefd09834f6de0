-- ===== src/Examples/Thrift/Buffers.antt =====
-- An encoder whose second call throws halfway and leaves a tracker that has counted.
use msgrpc.Base.{ℕ, ◌≡◌, refl, false, none, some, List, [], ◌∷◌, ◌++◌, ◌==◌, if◌then◌else◌}
use msgrpc.Msg.{Bytes}
use msgrpc.Cell.{encode, decode}
use msgrpc.Thrift.Buffers.{
  MemoryBuffer, ThriftEncoder, StructAt, Thrown, CodecCall, encode_call, decode_call, encoded,
  decoded, run_calls,
}
use msgrpc.Thrift.Buffers.Reference.{IsBuffer, reference, run_calls-reference}
use msgrpc.Examples.{byte, first_byte}

abbrev bytes_in_memory : MemoryBuffer Bytes
bytes_in_memory = record {
  reset_buffer = λ b. [];
  reset_buffer_to = λ n b. [];
  observe = λ bs b. bs;
  append = λ bs b. b ++ bs;
  get_buffer = λ b. b;
  default_size = 1024;
}

bytes_in_memory-IsBuffer : IsBuffer bytes_in_memory
bytes_in_memory-IsBuffer = record {
  reset_empties = λ b. refl;
  reset_to_empties = λ n b. refl;
  observe_shows = λ bs b. refl;
  append_appends = λ bs b. refl;
}

-- A struct that cannot be written at the limit of 1 of the trackers.
abbrev nested : StructAt ℕ
nested depth = record { write = λ v. if depth == 1 then none else some (v ∷ []); read = first_byte }

abbrev picky : StructAt ℕ
picky depth = record {
  write = λ v. if v == 0 then none else (nested depth).write v;
  read = first_byte;
}

abbrev nothing : Thrown
nothing = record { partial = []; raised = 0 }

-- The second call throws, and leaves a tracker that has counted: the third cannot be written.
abbrev calls : List (CodecCall ℕ)
calls =
    encode_call picky nothing 5
    ∷ encode_call picky (record { partial = 9 ∷ 9 ∷ []; raised = 1 }) 0
    ∷ encode_call picky nothing 6
    ∷ decode_call (λ depth. byte) 0 (8 ∷ 1 ∷ [])
    ∷ []

abbrev encoder : ThriftEncoder Bytes
encoder = record { mem_buf = 3 ∷ []; output_depth = 0; should_reset_to_default_size = false }

run_calls-reference_example :
    run_calls bytes_in_memory calls encoder (record { mem_buf = 4 ∷ []; input_depth = 0 })
    ≡ reference calls 0 0
run_calls-reference_example =
    run_calls-reference bytes_in_memory bytes_in_memory-IsBuffer calls encoder
      (record { mem_buf = 4 ∷ []; input_depth = 0 })

results :
    reference calls 0 0
    ≡ encoded (some (5 ∷ [])) ∷ encoded none ∷ encoded none ∷ decoded (some 8) ∷ []
unfolding encode decode reference
results = refl
