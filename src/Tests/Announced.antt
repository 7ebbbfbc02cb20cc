-- ===== src/Tests/Announced.antt =====
-- A round of the main loop at a concrete input: one more frame for the sample's host.
use gnome_usage.Base.{ℕ, zero, suc, ◌≡◌, refl, Bool, true, ◌&&◌, ltb, List, [], ◌∷◌, ◌++◌, arith}
use gnome_usage.Outcome.{ok, Returns}
use gnome_usage.Frame.{Memory}
use gnome_usage.Frame.Bytes.{lay, ethernet, link_header, ip_header, be16}
use gnome_usage.Frame.Cases.{IsBytes}
use gnome_usage.Process.{State}
use gnome_usage.Process.Figures.{figures}
use gnome_usage.Store.Every.{Every}
use gnome_usage.Store.Early.{IsEarly}
use gnome_usage.Application.Refresh.{dispatch_loop, main_loop}
use gnome_usage.Application.Announced.{announcement, main_loop-figures}
use gnome_usage.Tests.Samples.{here, there, at_second, store, state, world, readable, state-Owns}
use gnome_usage.Tests.Running.{floats, handle, header, new_frame}

small : List ℕ → Bool
small [] = true
small (b ∷ bs) = ltb b 256 && small bs

lay-IsBytes : (bs : List ℕ) (rest : Memory) → small bs ≡ true → IsBytes rest → IsBytes (lay bs rest)
unfolding small
lay-IsBytes [] rest h b i = b i
lay-IsBytes (c ∷ bs) rest h b zero = ground arith
lay-IsBytes (c ∷ bs) rest h b (suc i) = lay-IsBytes bs rest (ground arith) b i

new_frame-IsBytes : IsBytes new_frame
unfolding small
new_frame-IsBytes =
    lay-IsBytes
      (link_header ethernet (λ i. 0) ++ (ip_header 6 here there (λ i. 0) ++ (be16 9090 ++ be16 80)))
      (λ i. 0) refl (λ i. omega arith)

store-IsEarly : Every (λ c. IsEarly c.last_packet_time) store
store-IsEarly b c e = ground (arith, e)

main_loop-figures_example :
    Returns
      (λ (s', signal).
        (s₁ : State) × (dispatch_loop floats world
            (λ h. (header, new_frame) ∷ [])
            (handle ∷ [])
            state
          ≡ ok s₁)
        × (signal ≡ announcement floats (figures (at_second 102) s₁.store.cells s₁.processes)))
      (main_loop floats world (λ h. (header, new_frame) ∷ []) (at_second 102) (handle ∷ []) state)
main_loop-figures_example =
    main_loop-figures floats world (λ h. (header, new_frame) ∷ []) readable (at_second 102)
      (handle ∷ []) state (((omega arith, new_frame-IsBytes), tt), tt) state-Owns store-IsEarly
