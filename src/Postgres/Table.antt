-- ===== src/Postgres/Table.antt =====
-- The table of PostgreSQL rules as docs/RULES.md prints it: rule, verdict and lock hazard, with a
-- row of its own for the hazard that two rules have under `CONCURRENTLY`.
use reversibility_engine.Prelude.Text.{Text, text, text_eq}
use reversibility_engine.Prelude.{Bool, ◌&&◌, List, [], ◌∷◌, any}
use reversibility_engine.Domain.Verdict.{verdict_text, lock_text}
use reversibility_engine.Postgres.Classification.{Classification}

pub record Row : Type 0 where
  pub rule : Text
  pub verdict : Text
  pub hazard : Text

abbrev row : Text → Text → Text → Row
row r v h = record { rule = r; verdict = v; hazard = h }

-- The 59 rules.
unfoldable pub rule_table : List Row
unfolding text
rule_table =
    row (text "PG001") (text "IRREVERSIBLE") (text "EXCLUSIVE")
    ∷ row (text "PG002") (text "IRREVERSIBLE") (text "EXCLUSIVE")
    ∷ row (text "PG003") (text "IRREVERSIBLE") (text "EXCLUSIVE")
    ∷ row (text "PG004") (text "IRREVERSIBLE") (text "EXCLUSIVE")
    ∷ row (text "PG005") (text "IRREVERSIBLE") (text "EXCLUSIVE")
    ∷ row (text "PG006") (text "IRREVERSIBLE") (text "TABLE_REWRITE")
    ∷ row (text "PG007") (text "COSTLY") (text "TABLE_REWRITE")
    ∷ row (text "PG008") (text "IRREVERSIBLE") (text "EXCLUSIVE")
    ∷ row (text "PG009") (text "IRREVERSIBLE") (text "SHORT")
    ∷ row (text "PG010") (text "IRREVERSIBLE") (text "SHORT")
    ∷ row (text "PG011") (text "IRREVERSIBLE") (text "EXCLUSIVE")
    ∷ row (text "PG012") (text "COSTLY") (text "SHORT")
    ∷ row (text "PG013") (text "COSTLY") (text "SHORT")
    ∷ row (text "PG014") (text "COSTLY") (text "EXCLUSIVE")
    ∷ row (text "PG015") (text "COSTLY") (text "NONE")
    ∷ row (text "PG016") (text "COSTLY") (text "SHORT")
    ∷ row (text "PG017") (text "COSTLY") (text "FULL_SCAN")
    ∷ row (text "PG018") (text "COSTLY") (text "EXCLUSIVE")
    ∷ row (text "PG019") (text "REVERSIBLE") (text "TABLE_REWRITE")
    ∷ row (text "PG020") (text "REVERSIBLE") (text "NONE")
    ∷ row (text "PG021") (text "REVERSIBLE") (text "FULL_SCAN")
    ∷ row (text "PG022") (text "REVERSIBLE") (text "SHORT")
    ∷ row (text "PG023") (text "REVERSIBLE") (text "EXCLUSIVE")
    ∷ row (text "PG024") (text "REVERSIBLE") (text "NONE")
    ∷ row (text "PG025") (text "REVERSIBLE") (text "NONE")
    ∷ row (text "PG026") (text "REVERSIBLE") (text "SHORT")
    ∷ row (text "PG027") (text "UNKNOWN") (text "EXCLUSIVE")
    ∷ row (text "PG028") (text "COSTLY") (text "SHORT")
    ∷ row (text "PG029") (text "COSTLY") (text "EXCLUSIVE")
    ∷ row (text "PG030") (text "REVERSIBLE") (text "SHORT")
    ∷ row (text "PG031") (text "REVERSIBLE") (text "FULL_SCAN")
    ∷ row (text "PG032") (text "REVERSIBLE") (text "SHORT")
    ∷ row (text "PG033") (text "REVERSIBLE") (text "SHORT")
    ∷ row (text "PG034") (text "REVERSIBLE") (text "NONE")
    ∷ row (text "PG035") (text "REVERSIBLE") (text "EXCLUSIVE")
    ∷ row (text "PG036") (text "REVERSIBLE") (text "NONE")
    ∷ row (text "PG037") (text "REVERSIBLE") (text "NONE")
    ∷ row (text "PG038") (text "REVERSIBLE") (text "EXCLUSIVE")
    ∷ row (text "PG039") (text "REVERSIBLE") (text "SHORT")
    ∷ row (text "PG040") (text "REVERSIBLE") (text "NONE")
    ∷ row (text "PG041") (text "REVERSIBLE") (text "NONE")
    ∷ row (text "PG042") (text "REVERSIBLE") (text "NONE")
    ∷ row (text "PG043") (text "COSTLY") (text "SHORT")
    ∷ row (text "PG044") (text "REVERSIBLE") (text "SHORT")
    ∷ row (text "PG045") (text "REVERSIBLE") (text "FULL_SCAN")
    ∷ row (text "PG046") (text "REVERSIBLE") (text "NONE")
    ∷ row (text "PG047") (text "REVERSIBLE") (text "EXCLUSIVE")
    ∷ row (text "PG047") (text "REVERSIBLE") (text "FULL_SCAN")
    ∷ row (text "PG048") (text "IRREVERSIBLE") (text "SHORT")
    ∷ row (text "PG049") (text "REVERSIBLE") (text "SHORT")
    ∷ row (text "PG050") (text "COSTLY") (text "SHORT")
    ∷ row (text "PG051") (text "REVERSIBLE") (text "SHORT")
    ∷ row (text "PG052") (text "IRREVERSIBLE") (text "SHORT")
    ∷ row (text "PG053") (text "COSTLY") (text "SHORT")
    ∷ row (text "PG054") (text "COSTLY") (text "SHORT")
    ∷ row (text "PG055") (text "COSTLY") (text "TABLE_REWRITE")
    ∷ row (text "PG056") (text "REVERSIBLE") (text "FULL_SCAN")
    ∷ row (text "PG057") (text "COSTLY") (text "SHORT")
    ∷ row (text "PG057") (text "COSTLY") (text "NONE")
    ∷ row (text "PG058") (text "COSTLY") (text "SHORT")
    ∷ row (text "PG059") (text "IRREVERSIBLE") (text "SHORT")
    ∷ []

-- The classification has the verdict and the hazard that the table prints for its rule.
unfoldable pub is_documented : Classification → Bool
unfolding text_eq rule_table verdict_text lock_text
is_documented c = any rule_table (λ r.
    text_eq c.rule_id r.rule
    && (text_eq (verdict_text c.reversibility) r.verdict && text_eq (lock_text c.lock) r.hazard))
