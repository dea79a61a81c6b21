-- ===== src/Usb/Selection.antt =====
-- A device, a path or a pair of endpoints is chosen only where there is no other choice.
use workcentre_3119_modern_d.Prelude.{
  ℕ, ◌≡◌, ◌⊎◌, ◌↔◌, inl, inr, true, false, not, ◌&&◌, List, [], ◌∷◌, ◌++◌, append-nil, Option, none,
  some, ◌==◌, if◌then◌else◌, Bool-cases, arith,
}
use workcentre_3119_modern_d.Errors.{ok, Result-cases}
use workcentre_3119_modern_d.Usb.{
  PipeInfo, BulkPipes, ScannerCandidates, unique_scanner_path, is_input, put_pipe, pipes_loop,
  Slots, select_bulk_pipes,
}

abbrev pub entries : Option (ℕ × ℕ) → List (ℕ × ℕ)
entries none = []
entries (some p) = p ∷ []

-- The endpoints of a descriptor list, by kind and direction.
abbrev pub bulk_inputs : List PipeInfo → List (ℕ × ℕ)
bulk_inputs [] = []
bulk_inputs (p ∷ ps) =
    if (p.kind == 2) && is_input p
    then (p.id, p.maximum_packet) ∷ bulk_inputs ps
    else bulk_inputs ps

abbrev pub bulk_outputs : List PipeInfo → List (ℕ × ℕ)
bulk_outputs [] = []
bulk_outputs (p ∷ ps) =
    if (p.kind == 2) && not (is_input p)
    then (p.id, p.maximum_packet) ∷ bulk_outputs ps
    else bulk_outputs ps

put_pipe_all :
    (pipe : PipeInfo) (input output i o : Option (ℕ × ℕ))
    → put_pipe pipe (input, output) ≡ ok (i, o)
    → ((is_input pipe ≡ true)
        × (input ≡ none)
        × (i ≡ some (pipe.id, pipe.maximum_packet))
        × (o ≡ output))
      ⊎ ((is_input pipe ≡ false)
          × (output ≡ none)
          × (o ≡ some (pipe.id, pipe.maximum_packet))
          × (i ≡ input))
unfolding put_pipe
put_pipe_all pipe input output i o e = elim (Bool-cases (is_input pipe)) [
  | inl b ↦ inl (ground arith)
  | inr b ↦ inr (ground arith)
]

pipes_loop_all :
    (pipes : List PipeInfo) (seen : List ℕ) (input output : Option (ℕ × ℕ)) (slots : Slots)
    → pipes_loop pipes seen (input, output) ≡ ok slots
    → (entries slots.0 ≡ entries input ++ bulk_inputs pipes)
      × (entries slots.1 ≡ entries output ++ bulk_outputs pipes)
unfolding pipes_loop
pipes_loop_all [] seen input output slots e =
    (ground (arith, append-nil (entries input)), ground (arith, append-nil (entries output)))
pipes_loop_all (pipe ∷ pipes) seen input output slots e =
    elim (Result-cases (put_pipe pipe (input, output))) [
      | inl ((i, o), q) ↦ elim (Bool-cases (pipe.kind == 2)) [
        | inl k ↦
            let h = pipes_loop_all pipes (pipe.id ∷ seen) i o slots (ground arith) in
            let p = put_pipe_all pipe input output i o q in
            elim (Bool-cases (is_input pipe)) [
              | inl b ↦ (ground arith, ground arith)
              | inr b ↦ (ground arith, ground arith)
            ]
        | inr k ↦
            let h = pipes_loop_all pipes (pipe.id ∷ seen) input output slots (ground arith) in
            (ground arith, ground arith)
      ]
      | inr (x, q) ↦ elim (Bool-cases (pipe.kind == 2)) [
        | inl k ↦ ground arith
        | inr k ↦
            let h = pipes_loop_all pipes (pipe.id ∷ seen) input output slots (ground arith) in
            (ground arith, ground arith)
      ]
    ]

-- If endpoints are chosen, they are the only bulk IN and the only bulk OUT endpoint of the list.
pub select_bulk_pipes_unique :
    (pipes : List PipeInfo) (chosen : BulkPipes)
    → select_bulk_pipes pipes ≡ ok chosen
    → (bulk_inputs pipes ≡ (chosen.input, chosen.input_max_packet) ∷ [])
      × (bulk_outputs pipes ≡ (chosen.output, chosen.output_max_packet) ∷ [])
unfolding select_bulk_pipes
select_bulk_pipes_unique pipes chosen e = elim (Result-cases (pipes_loop pipes [] (none, none))) [
  | inl ((i, o), q) ↦ ground (arith, pipes_loop_all pipes [] none none (i, o) q)
  | inr (x, q) ↦ ground arith
]

-- A path is chosen exactly when one interface is present and it is active.
pub unique_scanner_path_iff :
    (candidates : ScannerCandidates) (p : List ℕ)
    → (unique_scanner_path candidates ≡ ok p)
      ↔ ((candidates.active ≡ p ∷ []) × (candidates.inactive ≡ 0))
unfolding unique_scanner_path
unique_scanner_path_iff candidates p = ground arith
