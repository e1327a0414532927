-- ===== src/Rollkit/Configured.antt =====
-- What the node's configuration makes of the flags.
use fuelmint.Common.{
  ℕ, List, [], ◌∷◌, ◌++◌, true, text, ◌*◌, ◌≤◌, ◌<◌, ◌^◌, ◌≡◌, ◌↔◌, refl, ap, length, arith,
}
use fuelmint.Common.Int.{pos}
use fuelmint.Rollkit.Settings.{Flags, seconds, copy, node_config, NodeConfig}

-- A block time of `n` seconds, for a `uint64` of them, is that many nanoseconds exactly if it is
-- at most 9223372036; the product wraps around above.
pub seconds-exact : (n : ℕ) → n < 2 ^ 64 → (seconds n ≡ pos (n * 1000000000)) ↔ (n ≤ 9223372036)
unfolding seconds
seconds-exact n h = (λ e. ground arith, λ e. ground arith)

module _ {ℓ} {A : Type ℓ} where
  length-copy : (dst src : List A) → length (copy dst src) ≡ length dst
  unfolding copy
  length-copy [] src = refl
  length-copy (d ∷ dst) [] = refl
  length-copy (d ∷ dst) (s ∷ src) = omega (arith, length-copy dst src)

  copy-fits :
      (dst src : List A) → length src ≤ length dst → (tail : List A) × (copy dst src ≡ src ++ tail)
  unfolding copy
  copy-fits [] [] h = ([], refl)
  copy-fits [] (s ∷ src) h = absurd (omega arith)
  copy-fits (d ∷ dst) [] h = (d ∷ dst, refl)
  copy-fits (d ∷ dst) (s ∷ src) h =
      let (tail, same) = copy-fits dst src (omega arith) in (tail, rw same)

  copy-cut :
      (dst src : List A) → length dst ≤ length src → (lost : List A) × (src ≡ copy dst src ++ lost)
  unfolding copy
  copy-cut [] src h = (src, refl)
  copy-cut (d ∷ dst) [] h = absurd (omega arith)
  copy-cut (d ∷ dst) (s ∷ src) h =
      let (lost, same) = copy-cut dst src (omega arith) in (lost, ap (λ l. s ∷ l) same)

  copy-exact : (dst src : List A) → length src ≡ length dst → copy dst src ≡ src
  unfolding copy
  copy-exact [] [] h = refl
  copy-exact [] (s ∷ src) h = absurd (omega arith)
  copy-exact (d ∷ dst) [] h = absurd (omega arith)
  copy-exact (d ∷ dst) (s ∷ src) h = ap (λ l. s ∷ l) (copy-exact dst src (omega arith))

-- What the configuration is, by the flags and the bytes of their namespace.
pub record IsConfigured {Rest : Type 0} (zero_namespace : List ℕ) (flags : Flags) (bytes : List ℕ)
    (c : NodeConfig Rest) : Type 0 where
  pub size : length c.namespace_id ≡ length zero_namespace
  pub exact : length bytes ≡ length zero_namespace → c.namespace_id ≡ bytes
  pub padded :
      length bytes ≤ length zero_namespace → (tail : List ℕ) × (c.namespace_id ≡ bytes ++ tail)
  pub cut :
      length zero_namespace ≤ length bytes → (lost : List ℕ) × (bytes ≡ c.namespace_id ++ lost)
  pub block_time :
      (c.block_time ≡ pos (flags.block_time * 1000000000)) ↔ (flags.block_time ≤ 9223372036)
  pub aggregates : c.aggregator ≡ true
  pub on_celestia : c.da_layer ≡ text "celestia"

-- For a block time that is a `uint64`, the namespace keeps its size; it is the given bytes if they
-- have that size, starts with them if they are fewer, and is the start of them if they are more. The
-- block time is exact up to 9223372036 seconds and wrong above. Whatever the flags say, the node
-- aggregates, on celestia.
pub node_config-IsConfigured :
    {Rest : Type 0} (zero_rest : Rest) (zero_namespace : List ℕ) (flags : Flags) (bytes : List ℕ)
    → flags.block_time < 2 ^ 64
    → IsConfigured zero_namespace flags bytes (node_config zero_rest zero_namespace flags bytes)
unfolding node_config
node_config-IsConfigured zero_rest zero_namespace flags bytes h = record {
  size = length-copy zero_namespace bytes;
  exact = copy-exact zero_namespace bytes;
  padded = copy-fits zero_namespace bytes;
  cut = copy-cut zero_namespace bytes;
  block_time = seconds-exact flags.block_time h;
  aggregates = refl;
  on_celestia = refl;
}
