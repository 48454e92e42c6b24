-- ===== src/Netronome/Dma/Tests.antt =====
-- Concrete runs of the receive requests of the simulation.
use alkali.Prelude.{ℕ, refl, ap, List, [], ◌∷◌, ◌++◌, Option, none, some}
use alkali.Netronome.Dma.{MemRing}

abbrev first : List ℕ → Option (ℕ × List ℕ)
first [] = none
first (i ∷ is) = some (i, is)

-- A ring as the list of its entries.
abbrev list_ring : MemRing
list_ring = record {
  State = List ℕ;
  entries = λ s. s;
  mem_ring_journal = λ i s. s ++ (i ∷ []);
  mem_ring_get = first;
  entries-journal = λ i s. refl;
  get_empty = λ s e. ap first e;
  get_first = λ s i is e. (is, ap first e, refl);
}
