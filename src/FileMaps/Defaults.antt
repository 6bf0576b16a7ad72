-- ===== src/FileMaps/Defaults.antt =====
-- `defaultSpecMap`, and that it finds each of its files.
use sims_utils.Base.{◌≡◌, refl, String, Bool, true, Option, none, some, [], ◌∷◌}
use sims_utils.Base.Result.{ok}
use sims_utils.FileMaps.Paths.{strip, ends_with}
use sims_utils.FileMaps.Sorting.{All}
use sims_utils.FileMaps.{Paths, SpecMap, spec_map, get_item}

unfoldable pub default_files : Paths
default_files =
    ("A.dat", "ssmSED/A.dat.gz")
    ∷ ("Sa.dat", "ssmSED/Sa.dat.gz")
    ∷ ("O.dat", "ssmSED/O.dat.gz")
    ∷ ("harris_V.dat", "ssmSED/harris_V.dat.gz")
    ∷ ("Cg.dat", "ssmSED/Cg.dat.gz")
    ∷ ("Sv.dat", "ssmSED/Sv.dat.gz")
    ∷ ("X.dat", "ssmSED/X.dat.gz")
    ∷ ("K.dat", "ssmSED/K.dat.gz")
    ∷ ("L.dat", "ssmSED/L.dat.gz")
    ∷ ("D.dat", "ssmSED/D.dat.gz")
    ∷ ("Sq.dat", "ssmSED/Sq.dat.gz")
    ∷ ("C.dat", "ssmSED/C.dat.gz")
    ∷ ("T.dat", "ssmSED/T.dat.gz")
    ∷ ("Xk.dat", "ssmSED/Xk.dat.gz")
    ∷ ("R.dat", "ssmSED/R.dat.gz")
    ∷ ("Ch.dat", "ssmSED/Ch.dat.gz")
    ∷ ("kurucz_sun", "ssmSED/kurucz_sun.gz")
    ∷ ("Sr.dat", "ssmSED/Sr.dat.gz")
    ∷ ("Cgh.dat", "ssmSED/Cgh.dat.gz")
    ∷ ("Cb.dat", "ssmSED/Cb.dat.gz")
    ∷ ("Xc.dat", "ssmSED/Xc.dat.gz")
    ∷ ("Xe.dat", "ssmSED/Xe.dat.gz")
    ∷ ("Q.dat", "ssmSED/Q.dat.gz")
    ∷ ("S.dat", "ssmSED/S.dat.gz")
    ∷ ("B.dat", "ssmSED/B.dat.gz")
    ∷ ("V.dat", "ssmSED/V.dat.gz")
    ∷ ("agn.spec", "agnSED/agn.spec.gz")
    ∷ ("BD1000.dat", "starSED/gizis_SED/BD1000_interp.dat.gz")
    ∷ ("BD1000e.dat", "starSED/gizis_SED/BD1000e_interp.dat.gz")
    ∷ ("BD1500.dat", "starSED/gizis_SED/BD1500_interp.dat.gz")
    ∷ ("BD1800.dat", "starSED/gizis_SED/BD1800_interp.dat.gz")
    ∷ ("BD2000.dat", "starSED/gizis_SED/BD2000_interp.dat.gz")
    ∷ ("BD325.dat", "starSED/gizis_SED/BD325_interp.dat.gz")
    ∷ ("BD555.dat", "starSED/gizis_SED/BD555_interp.dat.gz")
    ∷ ("PNastrom.dat", "starSED/gizis_SED/PNastrom_interp.dat.gz")
    ∷ ("RedE1astrom.dat", "starSED/gizis_SED/RedE1astrom_interp.dat.gz")
    ∷ ("RedE2astrom.dat", "starSED/gizis_SED/RedE2astrom_interp.dat.gz")
    ∷ ("sed_flat.txt", "flatSED/sed_flat.txt.gz")
    ∷ ("sed_flat_norm.txt", "flatSED/sed_flat.txt.gz")
    ∷ []

unfoldable pub default_spec_map : SpecMap
unfolding spec_map default_files
default_spec_map = spec_map (some default_files) none

module _ (re_match : String → String → Option Bool) where
  -- Each name that defaultSpecMap lists is found at the path listed with it, whatever the patterns
  -- match, and that path is one of a zipped file.
  pub default_spec_map-files :
      All
        (λ (name, path).
          (get_item re_match default_spec_map name ≡ ok path) × (ends_with ".gz" path ≡ true))
        default_files
  unfolding default_files default_spec_map get_item strip ends_with
  default_spec_map-files = (
    (refl, refl),
    (
      (refl, refl),
      (
        (refl, refl),
        (
          (refl, refl),
          (
            (refl, refl),
            (
              (refl, refl),
              (
                (refl, refl),
                (
                  (refl, refl),
                  (
                    (refl, refl),
                    (
                      (refl, refl),
                      (
                        (refl, refl),
                        (
                          (refl, refl),
                          (
                            (refl, refl),
                            (
                              (refl, refl),
                              (
                                (refl, refl),
                                (
                                  (refl, refl),
                                  (
                                    (refl, refl),
                                    (
                                      (refl, refl),
                                      (
                                        (refl, refl),
                                        (
                                          (refl, refl),
                                          (
                                            (refl, refl),
                                            (
                                              (refl, refl),
                                              (
                                                (refl, refl),
                                                (
                                                  (refl, refl),
                                                  (
                                                    (refl, refl),
                                                    (
                                                      (refl, refl),
                                                      (
                                                        (refl, refl),
                                                        (
                                                          (refl, refl),
                                                          (
                                                            (refl, refl),
                                                            (
                                                            (refl, refl),
                                                            (
                                                            (refl, refl),
                                                            (
                                                            (refl, refl),
                                                            (
                                                            (refl, refl),
                                                            (
                                                            (refl, refl),
                                                            (
                                                            (refl, refl),
                                                            (
                                                            (refl, refl),
                                                            (
                                                            (refl, refl),
                                                            ((refl, refl), ((refl, refl), tt)),
                                                            ),
                                                            ),
                                                            ),
                                                            ),
                                                            ),
                                                            ),
                                                            ),
                                                            ),
                                                          ),
                                                        ),
                                                      ),
                                                    ),
                                                  ),
                                                ),
                                              ),
                                            ),
                                          ),
                                        ),
                                      ),
                                    ),
                                  ),
                                ),
                              ),
                            ),
                          ),
                        ),
                      ),
                    ),
                  ),
                ),
              ),
            ),
          ),
        ),
      ),
    ),
  )
