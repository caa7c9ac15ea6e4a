-- ===== src/Metrics/Palette.antt =====
-- utils/chart-palette.ts: the colours of the series. d3's `interpolateHcl` is a parameter: the colour
-- between two at `r` of `n` parts. A slot lies in the segment that `t = i / (count - 1) * 4` rounds
-- down to: as `t` is a whole number only where the fraction is a number of quarters, which floating
-- point has exactly, the segment is that of the natural numbers.
use Prim.Native.Nat.{◌/◌, ◌%◌}
use otel_desktop_viewer.Prelude.{
  ℕ, zero, suc, ◌*◌, ◌==◌, String, same, if◌then◌else◌, List, [], ◌∷◌,
}

pub data CategoricalStem : Type 0 where
  pine foam gold rose iris : CategoricalStem

pub record StemPalette : Type 0 where
  pub pine_hex : String
  pub foam_hex : String
  pub gold_hex : String
  pub rose_hex : String
  pub iris_hex : String

abbrev pub rose_pine : StemPalette
rose_pine = record {
  pine_hex = "#31748f";
  foam_hex = "#9ccfd8";
  gold_hex = "#f6c177";
  rose_hex = "#ebbcba";
  iris_hex = "#c4a7e7";
}

abbrev pub rose_pine_moon : StemPalette
rose_pine_moon = record {
  pine_hex = "#3e8fb0";
  foam_hex = "#9ccfd8";
  gold_hex = "#f6c177";
  rose_hex = "#ea9a97";
  iris_hex = "#c4a7e7";
}

abbrev pub rose_pine_dawn : StemPalette
rose_pine_dawn = record {
  pine_hex = "#286983";
  foam_hex = "#56949f";
  gold_hex = "#ea9d34";
  rose_hex = "#d7827e";
  iris_hex = "#907aa9";
}

-- `CATEGORICAL_PALETTES[theme] ?? DEFAULT_CATEGORICAL_PALETTE`
abbrev pub stem_palette : String → StemPalette
stem_palette theme =
    if same theme "rose-pine"
    then rose_pine
    else if same theme "rose-pine-dawn"
    then rose_pine_dawn
    else rose_pine_moon

abbrev pub stem_hex : StemPalette → CategoricalStem → String
stem_hex p pine = p.pine_hex
stem_hex p foam = p.foam_hex
stem_hex p gold = p.gold_hex
stem_hex p rose = p.rose_hex
stem_hex p iris = p.iris_hex

-- The stem behind another in `WAYPOINT_ORDER`, which goes round.
abbrev pub next_stem : CategoricalStem → CategoricalStem
next_stem pine = foam
next_stem foam = gold
next_stem gold = rose
next_stem rose = iris
next_stem iris = pine

-- `hexAt`, of the stems in their order from `start`.
unfoldable pub hex_at : StemPalette → CategoricalStem → ℕ → String
hex_at p start zero = stem_hex p start
hex_at p start (suc i) = hex_at p (next_stem start) i

module _ (interpolate_hcl : String → String → ℕ → ℕ → String) where
  -- The colour of the slot `i` of `suc last` slots, with at least two of them.
  abbrev pub slot_color : (ℕ → String) → ℕ → ℕ → String
  slot_color hex last i =
      let seg = (4 * i) / last in
      let part = (4 * i) % last in
      if part == 0 then hex seg else interpolate_hcl (hex seg) (hex (suc seg)) part last

  -- The slots from `i` on.
  unfoldable pub slots_from : (ℕ → String) → ℕ → ℕ → ℕ → List String
  slots_from hex last i zero = []
  slots_from hex last i (suc more) = slot_color hex last i ∷ slots_from hex last (suc i) more

  unfoldable pub categorical_palette : CategoricalStem → String → ℕ → List String
  unfolding hex_at slots_from
  categorical_palette start theme zero = []
  categorical_palette start theme (suc zero) = hex_at (stem_palette theme) start 0 ∷ []
  categorical_palette start theme (suc (suc last)) =
      slots_from (hex_at (stem_palette theme) start) (suc last) 0 (suc (suc last))

-- `metricTypeStem` of components/metrics/utils/metric-type.ts.
unfoldable pub metric_type_stem : String → CategoricalStem
metric_type_stem metric_type =
    if same metric_type "Sum"
    then pine
    else if same metric_type "Histogram"
    then rose
    else if same metric_type "ExponentialHistogram"
    then gold
    else foam

-- What the colours of a metric depend on: its type, the theme, and the interpolation.
pub record Palette : Type 0 where
  pub metric_type : String
  pub theme : String
  pub interpolate_hcl : String → String → ℕ → ℕ → String

abbrev pub colors_of : Palette → ℕ → List String
unfolding categorical_palette metric_type_stem
colors_of p count =
    categorical_palette p.interpolate_hcl (metric_type_stem p.metric_type) p.theme count
