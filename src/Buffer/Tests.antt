-- ===== src/Buffer/Tests.antt =====
-- muduo/net/Buffer.h and Buffer.cpp: the theorems at concrete buffers.
use learn_muduo.Prelude.{ℕ, ◌≡◌, refl, List, [], ◌∷◌, ◌++◌, some, arith, replicate, codes}
use learn_muduo.Buffer.{Buffer, Received, got, IsValid, content}
use learn_muduo.Buffer.Ints.{append_ints, read_ints, read_ints-append_ints}
use learn_muduo.Buffer.Queue.{
  Call, appends, retrieves, unwrites, receives, shrinks, run, spec_run, Refines, run-Refines,
}

-- Five readable bytes, and room for three more.
abbrev line : Buffer
line = record {
  bytes = replicate 8 0 ++ codes "a\r\nbc" ++ replicate 3 0;
  reader_index = 8;
  writer_index = 13;
}

line-IsValid : IsValid line
line-IsValid = record { ordered = omega arith; inside = omega arith; large = omega arith }

abbrev unread : Buffer
unread = record { bytes = replicate 12 0; reader_index = 8; writer_index = 8 }

unread-IsValid : IsValid unread
unread-IsValid = record { ordered = omega arith; inside = omega arith; large = omega arith }

abbrev calls : List Call
calls =
    appends (codes "0123456789")
    ∷ retrieves 4
    ∷ unwrites 2
    ∷ receives (got (codes "xyz"))
    ∷ shrinks 5
    ∷ []

run-Refines_example : Refines (run calls line) (spec_run calls (content line))
run-Refines_example = run-Refines calls line line-IsValid

read_ints-append_ints_example :
    (b' : Buffer) × (b'' : Buffer) × (append_ints 2 (258 ∷ 7 ∷ []) unread ≡ some b')
    × (read_ints 2 2 b' ≡ some (258 ∷ 7 ∷ [], b''))
    × (content b'' ≡ [])
read_ints-append_ints_example =
    read_ints-append_ints 2 (258 ∷ 7 ∷ []) unread unread-IsValid refl
      (omega arith, (omega arith, tt))

abbrev delivers : List ℕ → Received
delivers sizes = got (codes "incoming")
