-- ===== src/Clients/Larson/Driver/Blocks.antt =====
-- A round of larson.cpp on the allocator of this repository: the blocks that each thread starts from.
use nuaf.Prelude.{◌-◌, ◌*◌, ◌≡◌, List}
use nuaf.System.{System}
use nuaf.Process.{Process}
use nuaf.Process.Ensures.{Ensures}
use nuaf.Clients.Larson.Lran2.{Lran2}
use nuaf.Clients.Larson.Threads.{ThreadData}
use nuaf.Clients.Larson.Driver.{Options}
use nuaf.Clients.Larson.Serving.Thread.{IsFitting}
use nuaf.Clients.Larson.Serving.{Arrays}

-- What a thread starts from: its part of the arrays, and its counts.
pub record IsStarted (o : Options) (arrays : Arrays) (t : ThreadData) : Type 0 where
  pub fitting : IsFitting arrays ((t.threadno - 1) * o.chperthread) t
  pub num_blocks_lem : t.num_blocks ≡ o.num_rounds * o.chperthread
  pub allocs_lem : t.c_allocs ≡ 0
  pub frees_lem : t.c_frees ≡ 0
