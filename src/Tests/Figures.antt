-- ===== src/Tests/Figures.antt =====
-- A figure script without a directory.
use skyros.Figures.{draw, Call}
use skyros.Figures.Scripts.{fs_figure}
use skyros.Base.Text.{codes}
use skyros.Base.{◌≡◌, refl, [], ◌∷◌, err, system_exit}

draw-no_directory :
    draw fs_figure (codes "./draw.py" ∷ []) []
    ≡ (err system_exit, Call.usage (codes "Usage: program indir") ∷ [])
unfolding draw
draw-no_directory = refl
