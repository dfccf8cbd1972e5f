-- ===== src/Printer/Raw.antt =====
-- The edges DATA_RAW that the inner loop of runOnModule adds, as they are drawn.
use dep_taint.Prelude.{ℕ, ◌≡◌, ◌≢◌, inl, inr, true, false, some, List, [], ◌∷◌, arith, All}
use dep_taint.Prelude.Outcome.{done}
use dep_taint.Prelude.PtrMap
use dep_taint.Ir.{Ir, is_load}
use dep_taint.Graph.{Graph}
use dep_taint.Graph.Valid.{IsValid}
use dep_taint.Graph.Edges.{has_edge}
use dep_taint.Wrapper.{Wrapper, Statics}
use dep_taint.Program.Adds.{IsPresent}
use dep_taint.Program.Pairs.{data_type, link_all}
use dep_taint.Program.Pairs.Correct.{FromPair, link_all_edges}
use dep_taint.Printer.{raw_prefix, raw_attributes, edge_attributes}

-- How the edge to a node is drawn, by the name of the location that its load reads.
abbrev pub IsRawLabel : Ir → Wrapper → Type 0
IsRawLabel ir v =
    edge_attributes ir 4 v
    ≡ done (raw_prefix ∷ ir.name (ir.pointer_operand v.instruction) ∷ "\"" ∷ [])

module _ (ir : Ir) (s : Statics) (ddg cdg : Graph) (p : ℕ) (w : Wrapper) where
  pair-raw :
      (q : ℕ) (u : Wrapper) (x y : ℕ) (v : Wrapper)
      → FromPair ir s ddg cdg p w q u x y 4
      → PtrMap.lookup q s.heap ≡ some u
      → PtrMap.lookup y s.heap ≡ some v
      → v.instruction ≢ 0
      → (is_load (ir.opcode v.instruction) ≡ true) × IsRawLabel ir v
  unfolding edge_attributes raw_attributes data_type
  pair-raw q u x y v drawn stored at present = elim drawn [
    | inl global ↦ absurd (omega (arith, global.2.1))
    | inr rest ↦ elim rest [
      | inl from_data ↦
          let same : u ≡ v = ground (arith, stored, at, from_data.1) in
          let load : is_load (ir.opcode v.instruction) ≡ true = ground (arith, from_data.2, same) in
          (load, ground (arith, from_data.2, present, same))
      | inr from_control ↦ absurd (omega (arith, from_control.2))
    ]
  ]

  -- If the nodes and the global variables have wrappers, the inner loop of runOnModule returns, and
  -- every DATA_RAW edge that it adds to a valid graph, to a node with an instruction, is drawn with
  -- the name of the location that a load reads, and this node is the load: getEdgeAttributes does not
  -- come to its message about an incorrect instruction.
  pub edge_attributes_raw :
      (g : Graph) (qs : List ℕ)
      → IsValid g
      → All (IsPresent s) s.global_list
      → All (IsPresent s) qs
      → (h : Graph) × (link_all ir ddg cdg s g p w qs ≡ done h)
        × ((x y : ℕ) (v : Wrapper)
            → has_edge h x y 4 ≡ true
            → has_edge g x y 4 ≡ false
            → PtrMap.lookup y s.heap ≡ some v
            → v.instruction ≢ 0
            → (is_load (ir.opcode v.instruction) ≡ true) × IsRawLabel ir v)
  edge_attributes_raw g qs ok globals nodes =
      let r = link_all_edges ir s ddg cdg g p w qs ok globals nodes in
      (
        r.result,
        r.ran,
        λ x y v there new at present. elim ((r.exact x y 4).0 there) [
          | inl old ↦ absurd (ground (arith, old, new))
          | inr row ↦ pair-raw row.to row.wrapper x y v row.drawn row.stored at present
        ],
      )
