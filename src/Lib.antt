-- ===== src/Lib.antt =====
-- Verification of sims_utils, the Python package python/lsst/sims/utils, with a module for each
-- of its parts.
--
-- The parts and how they interact. ObservationMetaData keeps what is known of one telescope
-- pointing. It asks SpatialBounds for the field of view of the pointing, keeps a
-- ModifiedJulianDate and a Site, and copies what a phoSimMetaData dict says. A database layer
-- that is not in this repository takes the field of view as SQL. SpecMap finds the file of a
-- spectrum by its name, and healpyUtils bins points of the sky into pixels. These two are called
-- by other packages only.
--
-- Base has the tests, lists, results, dicts and integers that all parts share. Base.Action is a
-- method call on a mutable object: it takes the object and gives a result and the object, and a
-- raise keeps what was written before it.
--
-- Bounds models python/lsst/sims/utils/SpatialBounds.py: Bounds.Circle and Bounds.Box are
-- CircleBounds and BoxBounds (circle_bounds and box_bounds are __init__, circle_to_sql and
-- box_to_sql are to_SQL), Bounds has the metaclass's registry and get_spatial_bounds.
-- Bounds.Errors has the exceptions. Bounds.Registry, Bounds.Query and Bounds.Exact have the
-- theorems, the last in exact arithmetic on whole multiples of a unit.
--
-- Mjd models python/lsst/sims/utils/ModifiedJulianDate.py: the record has the cached fields,
-- read_tai, read_utc, ... are the properties, which give the number, the changed object and the
-- warnings. Mjd.Reads and Mjd.Settled have the theorems.
--
-- Site models python/lsst/sims/utils/Site.py: the constructor, its LSST defaults, its checks and
-- its warning. A text carries whether it is the interned literal, since the source tests a name
-- by `is`. Site.Defaults has the theorems.
--
-- Observation models python/lsst/sims/utils/ObservationMetaData.py: Observation.State is the
-- object, Observation.Assign the private methods _assignDictKeyedToBandpass, _buildBounds and
-- _assignPhoSimMetaData, Observation.Methods the setters, setBandpassM5andSeeing and the
-- constructor, Observation.Steps the setters as steps and sequences of them, Observation.Getters
-- the properties as they are read. Observation.Getters, Observation.Keyed, Observation.Errors,
-- Observation.Conflicts and Observation.Invariant have the theorems.
--
-- Healpix models python/lsst/sims/utils/healpyUtils.py: hpid_to_ra_dec and ra_dec_to_hpid are
-- hpid2RaDec and raDec2Hpid, healbin is healbin, and each has its version in radians beside it.
-- Healpix.Arrays is the indexing of arrays; Healpix.Grouping, Healpix.Binning and
-- Healpix.RoundTrip have the theorems.
--
-- FileMaps models python/lsst/sims/utils/fileMaps.py: spec_map, get_item, set_item and has_key
-- are SpecMap, FileMaps.Defaults has defaultSpecMap, FileMaps.Paths and FileMaps.Sorting what
-- the file uses of texts and of sorted. FileMaps.Shared has the dicts of a SpecMap as objects,
-- which it may share with its caller and with other maps. FileMaps.Outcomes, FileMaps.Updates,
-- FileMaps.Shared and FileMaps.Defaults have the theorems.
--
-- Coordinates models python/lsst/sims/utils/CoordinateTransformations.py: calcGmstGast,
-- calcLmstLast, the galactic and the arcsecond conversions; Coordinates.Vectors has the vectors
-- and haversine, Coordinates.Turning rotationMatrixFromVectors. Palpy is what they call of
-- palpy. Coordinates.Sidereal, Coordinates.Turning, Coordinates.Galactic and Coordinates.Units
-- have the theorems.
--
-- Astrometry models python/lsst/sims/utils/AstrometryUtils.py: Astrometry.Apparent has
-- appGeoFromICRS and icrsFromAppGeo, Astrometry.Observed the observatory parameters and the
-- functions of observed places, each in radians and in degrees. A function is an action on the
-- date or on the observation that it is given, since a read of a date fills its cache;
-- Astrometry.Actions has the exceptions. Astrometry.Points says what one point becomes, and
-- Astrometry.Refines, Astrometry.Chain, Astrometry.Rest and Astrometry.Untouched have the
-- theorems. Base.Frame is what they need of actions that may raise. Astrometry.Sun and
-- Astrometry.Motion have the Sun, refraction, precession and proper motion, and
-- Astrometry.Moved, Astrometry.Precessed and Astrometry.Sun the theorems about them. Arrays is
-- what the code does with arrays of numbers.
--
-- FocalPlane models python/lsst/sims/utils/FocalPlaneUtils.py: FocalPlane.Projection has
-- pupilCoordsFromRaDec and raDecFromPupilCoords with what they call, FocalPlane.Points the pupil
-- coordinates of one point. FocalPlane.Points, FocalPlane.Pupil, FocalPlane.Sky,
-- FocalPlane.Rotation and FocalPlane.Back have the theorems.
--
-- Compound models python/lsst/sims/utils/CompoundCoordinateTransformations.py: Compound.Horizon
-- has altAzPaFromRaDec and raDecFromAltAz, with the spherical triangle in Compound.Triangle,
-- Compound.Rotator has getRotSkyPos and getRotTelPos, Compound.Defaults calcObsDefaults,
-- Compound.Params the makeObsParams functions; each of them makes an observation for one call,
-- Compound.Temporary. Compound.Angles are the arguments, numbers or numpy arrays.
-- Compound.Vantage says what palpy computes of an observatory at a date. Compound.Seen,
-- Compound.Sky, Compound.Turned, Compound.Untouched and Compound.Requests have the theorems,
-- Compound.Solved is the triangle, in formulas of its own, and Compound.Made, Compound.Measured,
-- Compound.Answers, Compound.Shown and Compound.Kwargs are what the last needs.
--
-- Sampling models python/lsst/sims/utils/samplingFunctions.py as actions on the state of numpy's
-- generator, which is the record Random. Sampling.Range has the theorem, Sampling.Order the
-- arithmetic that it asks for.
--
-- Tests has concrete objects and each of the results below that has conditions at one of them.
--
-- Parameters. numpy and Python's floats are the record Numpy, an unknown type of objects with
-- the operations that the code calls: floats are not modelled, and a theorem that needs a fact
-- of arithmetic asks for it. astropy is the record Astropy, healpy with numpy's sorting the
-- record Healpy, and what is documented of it IsHealpy; palpy is the record Places, and that its
-- functions of arrays do to each row what its functions of numbers do to one is IsElementwise;
-- re.match is an argument of the lookups of SpecMap.
--
-- Bounds and fuel. No function takes fuel: every loop of the source runs over a list or an
-- array, and is structural recursion on it. Numbers of the source are Python's, which do not
-- overflow; array indices are natural numbers.
--
-- Not modelled. An argument of a type that the source does not expect, beyond the tests that it
-- makes itself; two names for one mutable dict or object, so that a change by the caller is not
-- seen, but for the dicts of SpecMap; the properties of Site, which only return a field; the
-- dtype argument of healbin beyond its zero. The text of a warning is what it prints of the
-- object. The arguments of the functions of places are arrays of one dimension, not masked
-- arrays; a number of WcsUtils.py is np.float64. The angles of
-- CompoundCoordinateTransformations.py are numbers or arrays, not Python lists, and the date of
-- its makeObsParams functions is a number. The package's __init__ files, the tests, the example
-- notebook and the build files are not modelled either.
pub mod Base
pub mod Numpy
pub mod Arrays
pub mod Astropy
pub mod Bounds
pub mod Mjd
pub mod Site
pub mod Observation
pub mod Palpy
pub mod Compound
pub mod Coordinates
pub mod Astrometry
pub mod FocalPlane
pub mod Wcs
pub mod Healpy
pub mod Healpix
pub mod FileMaps
pub mod Sampling
mod Tests
