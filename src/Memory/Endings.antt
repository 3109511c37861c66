-- ===== src/Memory/Endings.antt =====
-- The end of a file of src/parseconfig.y, and what is left of it when it comes too early.
use natasha.Base.{ℕ, ◌+◌, ◌≡◌, refl, ap, ◌∙◌, arith}
use natasha.Base.{Option, none, some, true, List, [], ◌∷◌}
use natasha.Config.{AppConfig}
use natasha.NatTable.{Allocator}
use natasha.Memory.{app_config_free}
use natasha.Memory.Rules.{
  parse_content-Owns, parse_stmt-Owns, parse_cond-Owns, parse_extra_ips-Takes,
}
use natasha.Memory.Lost.{blocks, unfinished, lost}
use natasha.Memory.Load.{
  loaded, Phrase, config_port_extra_ips, rules_content, rules_stmt, cond, has_value, parse_phrase,
  parse_phrases, Ending, complete, syntax_error, Load, finish_load,
}

-- the blocks that are held through the result
abbrev pub held : Option AppConfig → ℕ
held none = 0
held (some config) = app_config_free config

-- A loading that goes on from `config` after `n` calls ends, with every block accounted for.
abbrev pub Accounted : AppConfig → ℕ → ℕ → Option Load → Type 0
Accounted config n gone r =
    (l : Load) × (r ≡ some l)
    × (held l.config + l.frees + gone + n ≡ app_config_free config + l.calls)

module _ (malloc : Allocator) (ok : (i : ℕ) → malloc i ≡ true) where
  parse_phrase-blocks :
      (phrase : Phrase) (n : ℕ) → parse_phrase malloc phrase n ≡ (true, n + blocks phrase)
  unfolding parse_phrase
  parse_phrase-blocks (config_port_extra_ips ips) n =
      ap has_value (parse_extra_ips-Takes malloc ok ips n)
  parse_phrase-blocks (rules_content content) n =
      ap has_value (parse_content-Owns malloc ok content n)
  parse_phrase-blocks (rules_stmt stmt) n = ap has_value (parse_stmt-Owns malloc ok stmt n)
  parse_phrase-blocks (cond what) n = ap has_value (parse_cond-Owns malloc ok what n)

  parse_phrases-unfinished :
      (phrases : List Phrase) (n : ℕ) → parse_phrases malloc phrases n ≡ n + unfinished phrases
  unfolding parse_phrases
  parse_phrases-unfinished [] n = omega arith
  parse_phrases-unfinished (phrase ∷ phrases) n =
      rw (parse_phrase-blocks phrase n)
        (parse_phrases-unfinished phrases (n + blocks phrase) ∙ omega arith)

  -- the end of the file
  pub finish_load-Accounted :
      (rte_max_ethports : ℕ) (ips : ℕ → ℕ) (rules : ℕ) (ending : Ending) (config : AppConfig)
      (n : ℕ)
      → Accounted config n
          (lost rte_max_ethports ips rules [] ending)
          (finish_load malloc ending (loaded config n))
  unfolding finish_load lost
  finish_load-Accounted rte_max_ethports ips rules complete config n =
      (record { config = some config; calls = n; frees = 0 }, refl, omega arith)
  finish_load-Accounted rte_max_ethports ips rules (syntax_error phrases) config n =
      let calls = parse_phrases malloc phrases n in
      (
        record { config = none; calls = calls; frees = app_config_free config },
        refl,
        omega (arith, parse_phrases-unfinished phrases n),
      )
