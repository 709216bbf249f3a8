-- ===== src/Memory/Entry.antt =====
-- An entry of a page table of memory.c, Operating System/p5-Virtual Memory, and the state in which a round of
-- `setup_page_table` begins.
use Prim.Native.Nat.{bit_or}
use ucas_coursework.Prelude.{
  ℕ, ◌+◌, ◌*◌, ◌/◌, ◌%◌, ◌^◌, ◌≤◌, ◌<◌, ◌≡◌, ◌≢◌, ◌∙◌, ◌⊎◌, inl, inr, arith, update,
}
use ucas_coursework.Memory.{Vm, create_pte}
use ucas_coursework.Memory.Copy.{Outside, update_ne, update_self}
use ucas_coursework.Memory.Pages.{used, taken, free, IsLaid}
use ucas_coursework.Memory.Load.{va, frame_bits}

-- The entry at `t` maps the pages `2 * vpn` and `2 * vpn + 1` of process `pid` to `f` and `g`, which hold the
-- words that stood in `source` from `loc` on.
pub record Maps (pid vpn loc f g t : ℕ) (source mem : ℕ → ℕ) : Type 0 where
  pub entrylo_0 : mem t ≡ bit_or 23 (frame_bits f)
  pub entrylo_1 : mem (t + 4) ≡ bit_or 23 (frame_bits g)
  pub entryhi : mem (t + 8) ≡ bit_or (vpn * 2 ^ 13 % 2 ^ 32) pid
  pub daddr : mem (t + 12) ≡ loc
  pub even : (w : ℕ) → w < 1024 → mem (va f + 4 * w) ≡ source (loc + 4 * w)
  pub odd : (w : ℕ) → w < 1024 → mem (va g + 4 * w) ≡ source (loc + 4096 + 4 * w)

-- Not in the entry
abbrev pub Beside : ℕ → ℕ → Type 0
Beside t a = (a < t) ⊎ (t + 16 ≤ a)

pub record Created (vpn pid t loc : ℕ) (mem mem' : ℕ → ℕ) : Type 0 where
  pub lo_0 : mem' (t + 4 * 0) ≡ 23
  pub lo_1 : mem' (t + 4 * 1) ≡ 23
  pub hi : mem' (t + 8) ≡ bit_or (vpn * 2 ^ 13 % 2 ^ 32) pid
  pub source : mem' (t + 12) ≡ loc
  pub others : (a : ℕ) → Beside t a → mem' a ≡ mem a

pub create_pte-Created :
    (vpn pid t loc : ℕ) (mem : ℕ → ℕ) → Created vpn pid t loc mem (create_pte vpn pid t loc mem)
unfolding create_pte
create_pte-Created vpn pid t loc mem =
    let hi : ℕ = bit_or (vpn * 2 ^ 13 % 2 ^ 32) pid in
    let m₁ : ℕ → ℕ = update mem (t + 8) hi in
    let m₂ : ℕ → ℕ = update m₁ t 23 in
    let m₃ : ℕ → ℕ = update m₂ (t + 4) 23 in
    record {
      lo_0 =
          let e : t + 4 * 0 ≡ t = omega arith in
          rw e (
            update_ne m₃ (t + 12) loc t (differs 12 (omega arith))
            ∙ update_ne m₂ (t + 4) 23 t (differs 4 (omega arith))
            ∙ update_self m₁ t 23);
      lo_1 =
          update_ne m₃ (t + 12) loc (t + 4) (λ e. absurd (omega (arith, e)))
          ∙ update_self m₂ (t + 4) 23;
      hi =
          update_ne m₃ (t + 12) loc (t + 8) (λ e. absurd (omega (arith, e)))
          ∙ update_ne m₂ (t + 4) 23 (t + 8) (λ e. absurd (omega (arith, e)))
          ∙ update_ne m₁ t 23 (t + 8) (λ e. absurd (omega (arith, e)))
          ∙ update_self mem (t + 8) hi;
      source = update_self m₃ (t + 12) loc;
      others = λ a b.
          update_ne m₃ (t + 12) loc a (beside a 12 (omega arith) b)
          ∙ update_ne m₂ (t + 4) 23 a (beside a 4 (omega arith) b)
          ∙ update_ne m₁ t 23 a (λ e. beside a 0 (omega arith) b (e ∙ omega arith))
          ∙ update_ne mem (t + 8) hi a (beside a 8 (omega arith) b);
    }
  where
    differs : (x : ℕ) → 0 < x → t ≢ t + x
    differs x h e = absurd (omega (arith, e, h))

    beside : (a x : ℕ) → x < 16 → Beside t a → a ≢ t + x
    beside a x h (inl below) e = absurd (omega (arith, e, h, below))
    beside a x h (inr above) e = absurd (omega (arith, e, h, above))

-- A table in page `pt`, of which the entries before the `j`-th are for smaller page numbers
pub record IsReady (pt j vpn : ℕ) (vm : Vm) : Type 0 where
  pub laid : IsLaid vm.page_map
  pub page : pt < 256
  pub pt_used : used pt vm.page_map ≡ 1
  pub slot : j < 256
  pub before : (k : ℕ) → k < j → vm.mem (va pt + 16 * k + 8) / 2 ^ 13 < vpn

-- The two pages were not used and are not the same; beside them only the entry is written.
pub record Pairs (pid vpn loc t f g : ℕ) (vm vm' : Vm) : Type 0 where
  pub f_lt : f < 256
  pub g_lt : g < 256
  pub f_unused : used f vm.page_map ≡ 0
  pub g_unused : used g vm.page_map ≡ 0
  pub differ : f ≢ g
  pub map_is : vm'.page_map ≡ taken 0 g (taken 0 f vm.page_map)
  pub left : free vm'.page_map + 2 ≡ free vm.page_map
  pub maps : Maps pid vpn loc f g t vm.mem vm'.mem
  pub others :
      (a : ℕ) → Beside t a → Outside 1024 (va f) a → Outside 1024 (va g) a → vm'.mem a ≡ vm.mem a
