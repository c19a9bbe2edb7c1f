-- ===== src/Enterprise/Indexers/Peers.antt =====
-- The list of peers that updateStatus makes from an answer of the cluster master.
use infra_devops.Base.{
  ℕ, zero, suc, ◌+◌, ◌<◌, ◌≤◌, List, some, on_option, length, get_elem?, ◌≡◌, refl, ◌∙◌, sym, arith,
}
use native.Mathlib.Decide.{dec_lt}
use infra_devops.Base.Int.{pos}
use infra_devops.Base.Dict.{Dict, lookup}
use infra_devops.Cluster.{PeerInfo}
use infra_devops.Enterprise.Slots.{
  get-put_at, get-put_at_before, length-put_at, length-cut, get-cut,
}
use infra_devops.Enterprise.Indexers.{
  PeerStatus, IndexerCr, peer_name, known_peer, unknown_peer, note_peers, current_peers,
}

module _ (cr : IndexerCr) (infos : Dict PeerInfo) where
  -- What the cluster master knows of peer `n`.
  abbrev reported : ℕ → PeerStatus
  reported n =
      let name = peer_name cr (pos n) in
      on_option (lookup name infos) (unknown_peer name) (known_peer name)

  length-note_peers :
      (n k : ℕ) (peers : List PeerStatus)
      → n ≤ length peers
      → n + k ≤ length (note_peers cr infos n k peers)
  unfolding note_peers
  length-note_peers n zero peers h = omega (arith, h)
  length-note_peers n (suc k) peers h =
      omega (arith, length-note_peers (suc n) k _ (length-put_at n (reported n) peers h))

  note_peers-before :
      (n k : ℕ) (peers : List PeerStatus) (i : ℕ)
      → n ≤ length peers
      → i < n
      → get_elem? (note_peers cr infos n k peers) i ≡ get_elem? peers i
  unfolding note_peers
  note_peers-before n zero peers i h l = refl
  note_peers-before n (suc k) peers i h l =
      note_peers-before (suc n) k _ i (length-put_at n (reported n) peers h) (omega (arith, l))
      ∙ get-put_at_before n (reported n) peers i h l

  note_peers-reported :
      (n k : ℕ) (peers : List PeerStatus) (i : ℕ)
      → n ≤ length peers
      → n ≤ i
      → i < n + k
      → get_elem? (note_peers cr infos n k peers) i ≡ some (reported i)
  unfolding note_peers
  note_peers-reported n zero peers i h l u = absurd (omega (arith, l, u))
  note_peers-reported n (suc k) peers i h l u = elim (dec_lt n i) [
    | yes p ↦
        note_peers-reported (suc n) k _ i (length-put_at n (reported n) peers h) (omega arith)
          (omega arith)
    | no p ↦
        let e : n ≡ i = omega (arith, p) in
        rw (sym e) (
          note_peers-before (suc n) k _ n (length-put_at n (reported n) peers h) (omega arith)
          ∙ get-put_at n (reported n) peers h)
  ]

  -- The loop of updateStatus and the truncation behind it leave `n` peers, and each is what `infos` has
  -- under its pod's name, whatever the peers were before.
  pub current_peers-reported :
      (n : ℕ) (peers : List PeerStatus)
      → (length (current_peers cr infos n peers) ≡ n)
        × ((i : ℕ) → i < n → get_elem? (current_peers cr infos n peers) i ≡ some (reported i))
  unfolding current_peers
  current_peers-reported n peers =
      let noted = note_peers cr infos 0 n peers in
      (
        length-cut n noted (omega (arith, length-note_peers 0 n peers (omega arith))),
        λ i h.
            get-cut n noted i h
            ∙ note_peers-reported 0 n peers i (omega arith) (omega arith) (omega (arith, h)),
      )
